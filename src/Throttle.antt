-- ===== src/Throttle.antt =====
-- pub_crawler/throttle.py: the limits, in requests and milliseconds.
use pub_crawler.Base.{ℕ}

abbrev pub burst_limit : ℕ
burst_limit = 1

abbrev pub burst_window : ℕ
burst_window = 1000

abbrev pub general_limit : ℕ
general_limit = 1

abbrev pub general_window : ℕ
general_window = 1000

abbrev pub page_limit : ℕ
page_limit = 1

abbrev pub page_window : ℕ
page_window = 3000
