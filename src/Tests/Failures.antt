-- ===== src/Tests/Failures.antt =====
-- pub_crawler/host_surveyor.py on a connection that failed for a name.
use pub_crawler.Base.{◌≡◌}
use pub_crawler.HostSurveyor.{
  Exc, exc, absent, present, gai_error, connect_error, classify_exception, is_gai,
}
use pub_crawler.HostSurveyor.Chain.{InChain, classify_exception-InChain}

abbrev unresolved : Exc
unresolved =
    exc connect_error (present (exc connect_error absent (present (exc gai_error absent absent))))
      absent

classify_exception-InChain_example :
    (classify_exception unresolved ≡ "dns_error" → InChain is_gai unresolved)
    × (InChain is_gai unresolved → classify_exception unresolved ≡ "dns_error")
classify_exception-InChain_example = classify_exception-InChain unresolved
