-- ===== src/Fixups/Member.antt =====
-- fixup/fixup_crc_tiebreak.py: the members of the queue in the format with a time as the third
-- field, and in the format with a checksum before the time.
use pub_crawler.Base.{String, ◌++◌, Bool, true, false, Option, none, some, List, [], ◌∷◌}
use pub_crawler.Base.Text.{split, has_char, format_hex}
use pub_crawler.Exec.{Result, ok, raised, value_error, other}
use pub_crawler.Exec.Fallible.{◌>>=◌}
use pub_crawler.Platform.{Platform}
use pub_crawler.Job.{job_id}

-- `l[2]`
unfoldable pub third : List String → Result String
third (_ ∷ _ ∷ x ∷ _) = ok x
third _ = raised (other "IndexError")

unfoldable pub is_old_member : String → Result Bool
unfolding third
is_old_member member = do x ← third (split b'|' 3 member); ok (has_char b'T' x)

unfoldable pub kept_if : String → Bool → Option String
kept_if member true = some member
kept_if member false = none

-- the members that are gathered
unfoldable pub if_old : String → Result (Option String)
unfolding kept_if
if_old member = do old ← is_old_member member; ok (kept_if member old)

-- the four fields that the member is split into
unfoldable pub four : List String → Result (String × String × String × String)
four (depth ∷ code ∷ ts ∷ job ∷ []) = ok (depth, code, ts, job)
four _ = raised value_error

module _ (p : Platform) where
  unfoldable pub with_crc : String × String × String × String → Option String → Option String
  with_crc (depth, code, ts, jobstr) none = none
  with_crc (depth, code, ts, jobstr) (some jid) = some (
      depth
      ++ ("|"
          ++ (code ++ ("|" ++ (format_hex 8 (p.crc32 jid) ++ ("|" ++ (ts ++ ("|" ++ jobstr))))))))

  -- the member in the new format, none for a job with no identity
  unfoldable pub new_member : String → Result (Option String)
  unfolding with_crc
  new_member member = do
    fields ← four (split b'|' 3 member)
    job ← p.loads fields.3
    ok (with_crc fields (job_id p.text_of job))

  unfoldable pub paired : String → Option String → List (String × String) → List (String × String)
  paired member none rest = rest
  paired member (some new) rest = (member, new) ∷ rest

  -- a batch's members that are rewritten, with the new ones
  unfoldable pub new_members : List String → Result (List (String × String))
  unfolding paired
  new_members [] = ok []
  new_members (member ∷ batch) = do
    new ← new_member member
    rest ← new_members batch
    ok (paired member new rest)
