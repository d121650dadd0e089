-- ===== src/Fixups/CrcTiebreak.antt =====
-- fixup/fixup_crc_tiebreak.py: the members that it writes, and the queue afterwards.
use Prim.Native.Char.{Char}
use pub_crawler.Base.{
  String, ℕ, zero, suc, ◌≡◌, refl, sym, ap, ◌∙◌, subst, false, Option, none, some, [], ◌∷◌, ◌++◌,
  arith, Option-cases, inl, inr,
}
use pub_crawler.Base.Text.{
  has_char, split, split_once, split-field, has_char-format_hex, has_char-split_once,
  has_char-format_02d, format_hex, format_02d,
}
use pub_crawler.Exec.{ok}
use pub_crawler.Exec.Fallible.{ok_injective, >>=-ok}
use pub_crawler.Json.{Value}
use pub_crawler.Platform.{Platform}
use pub_crawler.Job.{job_id}
use pub_crawler.Dispatcher.{job_to_member, member_text, iso_utc}
use pub_crawler.Dispatcher.Codec.{IsMemberOf, IsMemberOf-job_to_member, iso_utc_no_bar}
use pub_crawler.Fixups.Member.{is_old_member, third, four, new_member, with_crc}

abbrev bar : Char
bar = "|"

-- A text that is split into four fields has no separator in the first two.
record Four (d c t j : String) : Type 0 where
  first_plain : has_char b'|' d ≡ false
  second_plain : has_char b'|' c ≡ false

split-some :
    (n : ℕ) (s a rest : String)
    → split_once b'|' s ≡ some (a, rest)
    → split b'|' (suc n) s ≡ a ∷ split b'|' n rest
unfolding split
split-some n s a rest e = rw (split, e) refl

whole : (s : String) → split b'|' 0 s ≡ s ∷ []
unfolding split
whole s = refl

split-none : (n : ℕ) (s : String) → split_once b'|' s ≡ none → split b'|' n s ≡ s ∷ []
unfolding split
split-none zero s e = refl
split-none (suc n) s e = rw (split, e) refl

four-parts :
    (a b c d w x y z : String) → four (a ∷ b ∷ c ∷ d ∷ []) ≡ ok (w, x, y, z) → (a ≡ w) × (b ≡ x)
unfolding four
four-parts a b c d w x y z h = (cc, cc)

four-Four : (s d c t j : String) → four (split b'|' 3 s) ≡ ok (d, c, t, j) → Four d c t j
unfolding four
four-Four s d c t j h = elim (Option-cases (split_once b'|' s)) [
  | inl short ↦ absurd (cc (subst (λ l. four l ≡ ok (d, c, t, j)) (split-none 3 s short) h))
  | inr (one, e) ↦
      let h : four (one.0 ∷ split b'|' 2 one.1) ≡ ok (d, c, t, j) =
        subst (λ l. four l ≡ ok (d, c, t, j)) (split-some 2 s one.0 one.1 e) h in
      elim (Option-cases (split_once b'|' one.1)) [
        | inl short ↦
            absurd
              (cc (subst (λ l. four (one.0 ∷ l) ≡ ok (d, c, t, j)) (split-none 2 one.1 short) h))
        | inr (two, f) ↦
            let h : four (one.0 ∷ two.0 ∷ split b'|' 1 two.1) ≡ ok (d, c, t, j) =
              subst (λ l. four (one.0 ∷ l) ≡ ok (d, c, t, j)) (split-some 1 one.1 two.0 two.1 f)
                h in
            elim (Option-cases (split_once b'|' two.1)) [
              | inl short ↦ absurd (
                  cc (
                    subst (λ l. four (one.0 ∷ two.0 ∷ l) ≡ ok (d, c, t, j))
                      (split-none 1 two.1 short) h))
              | inr (three, g) ↦
                  let parts = four-parts one.0 two.0 three.0 three.1 d c t j (
                    subst (λ l. four (one.0 ∷ two.0 ∷ l) ≡ ok (d, c, t, j))
                      (split-some 0 two.1 three.0 three.1 g ∙ ap (λ l. three.0 ∷ l) (whole three.1))
                      h) in
                  record {
                    first_plain =
                        ap (has_char b'|') (sym parts.0) ∙ has_char-split_once b'|' s one.0 one.1 e;
                    second_plain =
                        ap (has_char b'|') (sym parts.1)
                        ∙ has_char-split_once b'|' one.1 two.0 two.1 f;
                  }
            ]
      ]
]

some_injective : {x y : String} → ◌≡◌ {A = Option String} (some x) (some y) → x ≡ y
some_injective h = cc

module _ (p : Platform) where
  -- depth, code, time and job, as they were written before
  abbrev pub old_text : ℕ → ℕ → ℕ → String → String
  old_text depth code now job =
      format_02d depth ++ ("|" ++ (format_02d code ++ ("|" ++ (iso_utc p now ++ ("|" ++ job)))))

  pub split-old_text :
      (depth code now : ℕ) (job : String)
      → split b'|' 3 (old_text depth code now job)
        ≡ format_02d depth ∷ format_02d code ∷ iso_utc p now ∷ job ∷ []
  unfolding split
  split-old_text depth code now job =
      rw
        (
          split-field 2 bar (format_02d depth) _
              (has_char-format_02d b'|' (inr (omega arith)) depth),
          split-field 1 bar (format_02d code) _ (has_char-format_02d b'|' (inr (omega arith)) code),
          split-field 0 bar (iso_utc p now) job (iso_utc_no_bar p now),
        )
        refl

  abbrev crc_text : String × String × String × String → String → String
  crc_text f jid =
      f.0
      ++ ("|" ++ (f.1 ++ ("|" ++ (format_hex 8 (p.crc32 jid) ++ ("|" ++ (f.2 ++ ("|" ++ f.3)))))))

  -- For a job with sorted keys, as it is read back from the queue, and the depth, the code and the
  -- text that make up its member: the member in the old format is rewritten to the member that the
  -- dispatcher writes for this job and time.
  pub new_member-job_to_member :
      (now : ℕ) (job : Value) (member : String)
      → p.sorted job ≡ job
      → (m : IsMemberOf p now job member)
      → (new_member p (old_text m.depth m.code now m.text) ≡ ok (some member))
        × (job_to_member p now job ≡ ok member)
  unfolding new_member four member_text with_crc
  new_member-job_to_member now job member same m = (
    rw
        (
          split-old_text m.depth m.code now m.text,
          p.loads-dumps job m.text m.dumped,
          same,
          m.identified,
        )
        (ap (λ x. ok (some x)) (sym m.written)),
    IsMemberOf-job_to_member p now job member m,
  )

  crc_third :
      (f : String × String × String × String) (jid : String)
      → Four f.0 f.1 f.2 f.3
      → is_old_member (crc_text f jid) ≡ ok false
  unfolding is_old_member split third
  crc_third f jid plain =
      rw
        (
          split-field 2 bar f.0 _ plain.first_plain,
          split-field 1 bar f.1 _ plain.second_plain,
          split-field 0 bar (format_hex 8 (p.crc32 jid)) _
              (has_char-format_hex b'|' (inr (omega arith)) 8 (p.crc32 jid)),
          has_char-format_hex b'T' (inl (omega arith, omega arith)) 8 (p.crc32 jid),
        )
        refl

  -- A member that was written is not an old one: a second run leaves it alone.
  pub is_old_member-new_member :
      (m n : String) → new_member p m ≡ ok (some n) → is_old_member n ≡ ok false
  unfolding new_member with_crc
  is_old_member-new_member m n h =
      let (fields, split_ok, h) = >>=-ok (four (split b'|' 3 m)) _ h in
      let (job, loaded, h) = >>=-ok (p.loads fields.3) _ h in
      let plain = four-Four m fields.0 fields.1 fields.2 fields.3 split_ok in
      elim (Option-cases (job_id p.text_of job)) [
        | inl none_there ↦ absurd (cc (rw none_there at (ok_injective h)))
        | inr (jid, there) ↦
            rw (sym (some_injective (rw there at (ok_injective h)))) (crc_third fields jid plain)
      ]
