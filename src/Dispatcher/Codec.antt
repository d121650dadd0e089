-- ===== src/Dispatcher/Codec.antt =====
-- The text of a queue member: what is read back from it.
use Prim.Native.Char.{Char}
use pub_crawler.Base.{
  String, ℕ, ◌≡◌, refl, sym, ap, ◌∙◌, ◌≤◌, Option, some, [], ◌∷◌, arith, true, false, max, min, inr,
}
use pub_crawler.Base.Int.{pos, negsuc}
use pub_crawler.Base.Text.{
  has_char, split, split-field, has_char-format_02d, has_char-format_hex, has_char-replace_from,
  format_02d, format_hex,
}
use pub_crawler.Exec.{ok}
use pub_crawler.Exec.Fallible.{>>=-ok, ok_injective}
use pub_crawler.Json.{Value, int, null, bool, float}
use pub_crawler.Platform.{Platform}
use pub_crawler.Job.{job_id, get_or}
use pub_crawler.Dispatcher.Member.{
  member_text, job_to_member, member_to_job, iso_utc, job_to_hash, or_no_jid, clamp, type_code,
}

abbrev bar : Char
bar = "|"

or_no_jid-ok : {o : Option String} {jid : String} → or_no_jid o ≡ ok jid → o ≡ some jid
unfolding or_no_jid
or_no_jid-ok {o} h = ground arith

-- the codes are two digits already
clamp_code : (v : Value) (code : ℕ) → type_code v ≡ ok code → max (min code 99) 0 ≡ code
unfolding type_code
clamp_code v code h = ground arith

pub clamp-le : (v : Value) (n : ℕ) → clamp v ≡ ok n → n ≤ 99
unfolding clamp
clamp-le (int (pos m)) n h = ground arith
clamp-le (int (negsuc m)) n h = ground arith
clamp-le (bool true) n h = ground arith
clamp-le (bool false) n h = ground arith
clamp-le (float (pos m) k) n h = ground arith
clamp-le _ n h = ground arith

module _ (p : Platform) where
  pub iso_utc_no_bar : (ms : ℕ) → has_char b'|' (iso_utc p ms) ≡ false
  unfolding iso_utc has_char
  iso_utc_no_bar ms =
      has_char-replace_from b'|' 0 "+00:00" "Z" (p.isoformat ms) refl (p.isoformat_no_bar ms)

  pub split-member_text :
      (depth code crc now : ℕ) (job : String)
      → split b'|' 4 (member_text p depth code crc (iso_utc p now) job)
        ≡ format_02d depth ∷ format_02d code ∷ format_hex 8 crc ∷ iso_utc p now ∷ job ∷ []
  unfolding member_text split
  split-member_text depth code crc now job =
      rw
        (
          split-field 3 bar (format_02d depth) _
              (has_char-format_02d b'|' (inr (omega arith)) depth),
          split-field 2 bar (format_02d code) _ (has_char-format_02d b'|' (inr (omega arith)) code),
          split-field 1 bar (format_hex 8 crc) _
              (has_char-format_hex b'|' (inr (omega arith)) 8 crc),
          split-field 0 bar (iso_utc p now) job (iso_utc_no_bar now),
        )
        refl

  -- What makes up the member of a job.
  pub record IsMemberOf (now : ℕ) (job : Value) (member : String) : Type 0 where
    pub depth : ℕ
    pub code : ℕ
    pub jid : String
    pub text : String
    pub identified : job_id p.text_of job ≡ some jid
    pub depth_value : Value
    pub depth_read : get_or job "depth" (int (pos 0)) ≡ ok depth_value
    pub clamped : clamp depth_value ≡ ok depth
    pub type_value : Value
    pub type_read : get_or job "job_type" null ≡ ok type_value
    pub coded : type_code type_value ≡ ok code
    pub dumped : p.dumps job ≡ ok text
    pub written : member ≡ member_text p depth code (p.crc32 jid) (iso_utc p now) text

  pub job_to_member-parts :
      (now : ℕ) (job : Value) (member : String)
      → job_to_member p now job ≡ ok member
      → IsMemberOf now job member
  unfolding job_to_member
  job_to_member-parts now job member h =
      let (depth, depth_read, h) = >>=-ok (get_or job "depth" (int (pos 0))) _ h in
      let (job_type, type_read, h) = >>=-ok (get_or job "job_type" null) _ h in
      let (code, coded, h) = >>=-ok (type_code job_type) _ h in
      let (jid, identified, h) = >>=-ok (or_no_jid (job_id p.text_of job)) _ h in
      let (d, clamped, h) = >>=-ok (clamp depth) _ h in
      let (text, dumped, h) = >>=-ok (p.dumps job) _ h in
      record {
        depth = d;
        code = code;
        jid = jid;
        text = text;
        identified = or_no_jid-ok identified;
        depth_value = depth;
        depth_read = depth_read;
        clamped = clamped;
        type_value = job_type;
        type_read = type_read;
        coded = coded;
        dumped = dumped;
        written =
            sym (ok_injective h)
            ∙ ap (λ c. member_text p d c (p.crc32 jid) (iso_utc p now) text)
                (clamp_code job_type code coded);
      }

  pub IsMemberOf-job_to_member :
      (now : ℕ) (job : Value) (member : String)
      → IsMemberOf now job member
      → job_to_member p now job ≡ ok member
  unfolding job_to_member or_no_jid
  IsMemberOf-job_to_member now job member m =
      rw (m.depth_read, m.type_read, m.coded, m.identified, m.clamped, m.dumped)
        (ap (λ c. ok (member_text p m.depth c (p.crc32 m.jid) (iso_utc p now) m.text))
            (clamp_code m.type_value m.code m.coded)
          ∙ ap ok (sym m.written))

  -- Where a job has a member, reading this member back gives the job with its keys sorted.
  pub member_to_job-job_to_member :
      (now : ℕ) (job : Value) (member : String)
      → job_to_member p now job ≡ ok member
      → member_to_job p member ≡ ok (p.sorted job)
  unfolding member_to_job
  member_to_job-job_to_member now job member h =
      let m = job_to_member-parts now job member h in
      rw (m.written, split-member_text m.depth m.code (p.crc32 m.jid) now m.text)
        (p.loads-dumps job m.text m.dumped)

  -- A job with a member has a hash: both rest on its identity.
  pub job_to_hash_of_member :
      (now : ℕ) (job : Value) (member : String)
      → (m : IsMemberOf now job member) → job_to_hash p job ≡ ok (p.blake2b m.jid)
  unfolding job_to_hash or_no_jid
  job_to_hash_of_member now job member m = rw m.identified
