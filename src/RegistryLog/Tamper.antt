-- ===== src/RegistryLog/Tamper.antt =====
-- What `verify_log_chain` (capmesh/registry_log.py) can tell from the hash of the last entry, and an
-- edit that it cannot see.
use client_capmesh.Prelude.{
  [], ℕ, String, ◌≡◌, refl, ap, true, Option, none, some, List, ◌∷◌, arith, eq_iff, ◌+++◌, or_else,
  or_default, opt_eq, ◌∙◌, Memᴰ, if◌then◌else◌, Bool-cases, sym, length, map, ◌==◌, ◌+◌, inr,
  Memᴰ-of-order_by, inl, length-order_by, order_by-map, length-map,
}
use client_capmesh.RegistryLog.Entries.{
  Entry, stored, valid, combined, verify_from, verify_log_chain, in_sequence,
}
use Prim.Native.String.{count}
use text.Mathlib.TextLemmas.{append_assoc, length-append, append_inj}

or_else_nil : (s : String) → or_else s "" ≡ s
or_else_nil String.[] = refl
or_else_nil (String.◌∷◌ c s) = refl

opt_eq_of : (o p : Option String) → opt_eq o p ≡ true → o ≡ p
opt_eq_of none none h = refl
opt_eq_of none (some t) h = absurd (ground arith)
opt_eq_of (some s) none h = absurd (ground arith)
opt_eq_of (some s) (some t) h = ap some ((eq_iff s t).0 h)

module _ (hash : String → String) (str : ℕ → String) where
  -- the text that was hashed for a stored entry
  abbrev pub text_of : Entry → String
  text_of e = combined hash str e (stored e.prev_hash)

  -- the hashed text up to the hash of the entry before
  abbrev front : Entry → String
  front e =
      str e.sequence
      +++ ("|"
          +++ (e.event_type
              +++ ("|"
                  +++ (e.actor
                      +++ ("|"
                          +++ (or_default e.target_uri ""
                              +++ ("|" +++ (e.action +++ ("|" +++ (e.payload_json +++ "|"))))))))))

  front-combined :
      (e : Entry) (o : Option String) → front e +++ or_default o "" ≡ combined hash str e o
  front-combined e o = simp append_assoc

  verified_step :
      (prev last : Option String) (e : Entry) (es : List Entry)
      → verify_from hash str prev (e ∷ es) ≡ valid last
      → (prev ≡ stored e.prev_hash)
        × (hash (text_of e) ≡ e.entry_hash)
        × (verify_from hash str (some e.entry_hash) es ≡ valid last)
  unfolding verify_from
  verified_step prev last e es h =
      (opt_eq_of _ _ (ground arith), (eq_iff _ _).0 (ground arith), ground arith)

  fronts :
      (e f : Entry) (o p : Option String)
      → combined hash str e o ≡ combined hash str f p
      → count (or_default o "") ≡ count (or_default p "")
      → or_default o "" ≡ or_default p ""
  fronts e f o p same lengths =
      let joined : front e +++ or_default o "" ≡ front f +++ or_default p "" =
        front-combined e o ∙ (same ∙ sym (front-combined f p)) in
      let total : count (front e) + count (or_default o "")
          ≡ count (front f) + count (or_default p "") =
        sym (length-append (front e) (or_default o ""))
        ∙ (ap count joined ∙ length-append (front f) (or_default p "")) in
      (append_inj joined (omega (arith, total, lengths))).1

  module _ (same_length : (s t : String) → count (hash s) ≡ count (hash t)) where
    chain_texts :
        (p q last : Option String) (xs ys : List Entry)
        → ((e f : Entry)
            → Memᴰ e xs
            → Memᴰ f ys
            → hash (text_of e) ≡ hash (text_of f)
            → text_of e ≡ text_of f)
        → count (or_default p "") ≡ count (or_default q "")
        → length xs ≡ length ys
        → verify_from hash str p xs ≡ valid last
        → verify_from hash str q ys ≡ valid last
        → (or_default p "" ≡ or_default q "") × (map text_of xs ≡ map text_of ys)
    unfolding verify_from
    chain_texts p q last [] [] free c n vx vy =
        (let same : p ≡ q = ground (arith, vx, vy) in rw same refl, refl)
    chain_texts p q last [] (y ∷ ys) free c n vx vy = absurd (omega (arith, n))
    chain_texts p q last (x ∷ xs) [] free c n vx vy = absurd (omega (arith, n))
    chain_texts p q last (x ∷ xs) (y ∷ ys) free c n vx vy =
        let (px, hx, restx) = verified_step p last x xs vx in
        let (py, hy, resty) = verified_step q last y ys vy in
        let counts : count (or_else x.entry_hash "") ≡ count (or_else y.entry_hash "") =
          rw (or_else_nil x.entry_hash, or_else_nil y.entry_hash, ← hx, ← hy)
            (same_length (text_of x) (text_of y)) in
        let (hashes, texts) =
          chain_texts (some x.entry_hash) (some y.entry_hash) last xs ys
            (λ e f me mf. free e f (Memᴰ.tail me) (Memᴰ.tail mf)) counts (omega (arith, n)) restx
            resty in
        let hashes' : x.entry_hash ≡ y.entry_hash =
          rw (or_else_nil x.entry_hash, or_else_nil y.entry_hash) at hashes in
        let text : text_of x ≡ text_of y =
          free x y (Memᴰ.head refl) (Memᴰ.head refl) (hx ∙ (hashes' ∙ sym hy)) in
        (
          rw (px, py)
              (fronts x y (stored x.prev_hash) (stored y.prev_hash) text (rw (← px, ← py) c)),
          ap (λ t. t ∷ map text_of xs) text ∙ ap (λ ts. text_of y ∷ ts) texts,
        )

    -- Two logs of the same number of entries that both verify, and end in the same hash, were hashed
    -- from the same texts, entry by entry, where the hash has texts of one length and no collision
    -- among those of the two logs: whoever knows the number and the hash of the last entry notices
    -- any edit that changes a hashed text.
    pub same_head-texts :
        (log other : List Entry) (last : Option String)
        → ((e f : Entry)
            → Memᴰ e log
            → Memᴰ f other
            → hash (text_of e) ≡ hash (text_of f)
            → text_of e ≡ text_of f)
        → (verify_log_chain hash str log).check ≡ valid last
        → verify_log_chain hash str other ≡ verify_log_chain hash str log
        → map text_of (in_sequence log) ≡ map text_of (in_sequence other)
    unfolding verify_log_chain
    same_head-texts log other last free v same =
        (chain_texts none none last (in_sequence log) (in_sequence other)
          (λ e f me mf. free e f (Memᴰ-of-order_by _ log me) (Memᴰ-of-order_by _ other mf)) refl
          (length-order_by _ log ∙ (sym (ap (λ r. r.entries) same) ∙ sym (length-order_by _ other)))
          v (ap (λ r. r.check) same ∙ v)).1

  -- an edit that moves a separator from the type of an event to its actor
  abbrev pub move_separator : (a b : String) → Entry → Entry
  move_separator a b e =
      if e.event_type == a +++ ("|" +++ b)
      then record e { event_type = a; actor = b +++ ("|" +++ e.actor) }
      else e

  move_separator-combined :
      (a b : String) (e : Entry) (o : Option String)
      → combined hash str (move_separator a b e) o ≡ combined hash str e o
  move_separator-combined a b e o = elim (Bool-cases (e.event_type == a +++ ("|" +++ b))) [
    | inr differ ↦ rw differ
    | inl same ↦
        let type : e.event_type ≡ a +++ ("|" +++ b) = (eq_iff _ _).0 same in
        rw (same, type) (simp append_assoc)
  ]

  move_separator-kept :
      (a b : String) (e : Entry)
      → ((move_separator a b e).sequence ≡ e.sequence)
        × ((move_separator a b e).prev_hash ≡ e.prev_hash)
        × ((move_separator a b e).entry_hash ≡ e.entry_hash)
  move_separator-kept a b e = elim (Bool-cases (e.event_type == a +++ ("|" +++ b))) [
    | inr differ ↦ rw differ (refl, refl, refl)
    | inl same ↦ rw same (refl, refl, refl)
  ]

  verify_from-move_separator :
      (a b : String) (prev : Option String) (es : List Entry)
      → verify_from hash str prev (map (move_separator a b) es) ≡ verify_from hash str prev es
  unfolding verify_from
  verify_from-move_separator a b prev [] = refl
  verify_from-move_separator a b prev (e ∷ es) =
      let (s, p, h) = move_separator-kept a b e in
      rw (
        move_separator-combined a b e,
        p,
        h,
        s,
        verify_from-move_separator a b (some e.entry_hash) es,
      )

  -- The fields of an entry are joined by `|`, which they may contain: if the type of an event is cut
  -- at a `|` in every entry that has that type, and the rest is moved to the front of the actor, the
  -- chain verifies as before, with the same hashes.
  pub separator_moved :
      (a b : String) (log : List Entry)
      → verify_log_chain hash str (map (move_separator a b) log) ≡ verify_log_chain hash str log
  unfolding verify_log_chain
  separator_moved a b log =
      let order : in_sequence (map (move_separator a b) log)
          ≡ map (move_separator a b) (in_sequence log) =
        order_by-map _ (move_separator a b)
          (λ x y. rw ((move_separator-kept a b x).0, (move_separator-kept a b y).0)) log in
      rw (
        order,
        verify_from-move_separator a b none (in_sequence log),
        length-map (move_separator a b) log,
      )
