-- ===== src/World.antt =====
-- What a worker acts on: the dispatcher's state and the graph, in one state.
use pub_crawler.Base.{String, ℕ}
use pub_crawler.Exec.{Exec}
use pub_crawler.Redis.{Redis}
use pub_crawler.Platform.{Platform}
use pub_crawler.Dispatcher.{Dispatcher}
use pub_crawler.Graph.{Graph}
use pub_crawler.Graph.Libraries.{Lru, Postgres}

-- the servers and the libraries
pub record Setting : Type 1 where
  pub redis : Redis
  pub platform : Platform
  pub postgres : Postgres platform
  pub ids : Lru String ℕ
  pub labels : Lru ℕ String

pub record World (w : Setting) : Type 0 where
  pub jobs : Dispatcher w.redis
  pub graph : Graph w.ids w.labels

module _ (w : Setting) {A : Type 0} where
  abbrev pub on_jobs : Exec (Dispatcher w.redis) A → Exec (World w) A
  on_jobs m s = let (a, jobs) = m s.jobs in (a, record s { jobs = jobs })

  abbrev pub on_graph : Exec (Graph w.ids w.labels) A → Exec (World w) A
  on_graph m s = let (a, graph) = m s.graph in (a, record s { graph = graph })
