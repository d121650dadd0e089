-- ===== src/Tests/Items.antt =====
-- pub_crawler/handle_items.py: one item that is new to the graph and the dispatcher.
use pub_crawler.Base.{String, ◌≡◌, refl, none, [], ◌∷◌}
use pub_crawler.Base.Int.{pos, ◌+ℤ◌}
use pub_crawler.Exec.{ok}
use pub_crawler.Json.{Value, list, nil, cons, str, int, get, items as get_items}
use pub_crawler.Json.Python.{add_one, iterate}
use pub_crawler.World.{World}
use pub_crawler.Handlers.{
  ids_of_items, without, unique, contains_text, connect, set_depths, put_items, enqueue_actors,
  enqueue_items, handle_items, actor_job_at,
}
use pub_crawler.Handlers.Handling.{Handled, handle_items_lem}
use pub_crawler.Platform.Plain.{plain, plain_dumps, plain_dumps_unsorted}
use pub_crawler.Graph.{ensure_nodes, execute}
use pub_crawler.Graph.Schema.{select, any_of, find_row, upsert, insert_row, fold}
use pub_crawler.Graph.Statements.{
  insert_nodes, read_rows, insert_node_properties, put_node_property,
}
use pub_crawler.Graph.Properties.{get_nodes_property, set_nodes_property, labelled_values}
use pub_crawler.Dispatcher.{
  job_to_member, job_to_hash, member_text, iso_utc, type_code, clamp, or_no_jid, seen_hashed_key,
}
use pub_crawler.Dispatcher.Methods.{enqueue_if_unseen_new}
use pub_crawler.Job.{job_id, get_or}
use pub_crawler.Redis.Memory.{memory, sets-fresh}
use pub_crawler.Tests.Queue
use pub_crawler.Tests.Nodes
use pub_crawler.Tests.Workers.{setting}

abbrev items : Value
items = list (cons (str "a") nil)

abbrev world : World setting
world = record { jobs = Queue.start; graph = Nodes.start }

abbrev depth_text : String
depth_text = (plain_dumps_unsorted (int (pos 3))).0

-- the graph with a depth
abbrev after : World setting
after = record {
  jobs = Queue.start;
  graph = record {
    db = record Nodes.start.db {
      node_property = record { id = 1; name = "depth"; value = depth_text } ∷ [];
    };
    cache = λ l. none;
    label_cache = λ i. none;
  };
}

depth_set :
    put_items setting (λ l. l) 5 ("a" ∷ []) (str "b") (str "other") (int (pos 2)) world
    ≡ (ok tt, after)
unfolding put_items connect set_depths ensure_nodes insert_nodes get_nodes_property
    set_nodes_property labelled_values read_rows select any_of find_row unique without contains_text
    get add_one execute insert_node_properties put_node_property upsert insert_row fold ◌+ℤ◌
depth_set = rw (plain_dumps_unsorted (int (pos 3))).1 refl

abbrev a_job : Value
a_job = actor_job_at "a" (int (pos 3))

a_member :
    job_to_member plain 5 a_job
    ≡ ok (member_text plain 3 20 (plain.crc32 "actor:a") (iso_utc plain 5) (plain_dumps a_job).0)
unfolding job_to_member get_or get type_code clamp or_no_jid job_id
a_member = rw (plain_dumps a_job).1 refl

made : (enqueue_items setting (λ l. l) 5 ("a" ∷ []) (int (pos 2)) after).0 ≡ ok tt
unfolding enqueue_items enqueue_actors get_nodes_property labelled_values read_rows select any_of
    find_row unique without contains_text get add_one ◌+ℤ◌ job_to_hash or_no_jid job_id
made =
    rw
      (enqueue_if_unseen_new memory plain Queue.start a_job 5 refl (sets-fresh seen_hashed_key _)
        a_member).result
      refl

returned :
    (handle_items setting (λ l. l) 5 items (str "b") (str "other") (int (pos 2)) world).0 ≡ ok tt
unfolding handle_items iterate ids_of_items get_items
returned = rw depth_set made

handle_items_lem_example :
    Handled setting
      (λ l. l)
      5
      items
      (int (pos 3))
      Queue.start
      (handle_items setting (λ l. l) 5 items (str "b") (str "other") (int (pos 2)) world).1
unfolding add_one ◌+ℤ◌
handle_items_lem_example =
    handle_items_lem setting (λ l. l) 5 (λ l x. refl) (int (pos 2)) (int (pos 3)) refl items
      (str "b") (str "other") world returned
