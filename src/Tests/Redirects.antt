-- ===== src/Tests/Redirects.antt =====
-- pub_crawler/activity_pub_client.py against a server that redirects for ever.
use pub_crawler.Base.{ℕ, suc, false, some, arith}
use pub_crawler.Exec.{ok}
use pub_crawler.Json.{null}
use pub_crawler.ActivityPub.{Network, get_with_headers}
use pub_crawler.ActivityPub.Redirects.{Sends, get_with_headers-Sends}

-- the state is the number of requests that were sent
abbrev looping : Network ℕ
looping = record {
  paged = λ o s. (ok tt, s);
  general = λ o s. (ok tt, s);
  burst = λ o s. (ok tt, s);
  urlsplit = λ u. ok (record { netloc = "a.example"; path = "/u"; query = ""; paged = false });
  urljoin = λ u v. ok v;
  loads = λ t. ok null;
  send = λ u h s.
      (ok (record { status = 301; header = λ k. some "https://a.example/u"; content = "" }), suc s);
  lower = λ s. s;
  sign = λ s. s;
  key_id = "https://b.example/key";
  date = λ s. (ok "Thu, 01 Jan 1970 00:00:00 GMT", s);
}

get_with_headers-Sends_example : Sends (λ s. s) 21 (get_with_headers looping "https://a.example/u")
get_with_headers-Sends_example =
    get_with_headers-Sends (λ s. s) looping (λ o. record { bound = λ s. omega arith })
      (λ o. record { bound = λ s. omega arith }) (λ o. record { bound = λ s. omega arith })
      (record { bound = λ s. omega arith }) (λ u h. record { bound = λ s. omega arith })
      "https://a.example/u"
