-- ===== src/Telemetry/Annotations.antt =====
-- annotate_run as a bounded table: what is taken, and what each key has afterwards.
use gempba.Base.{
  ℕ, ◌≡◌, ◌⊎◌, refl, sym, ◌∙◌, ap, ◌==◌, if◌then◌else◌, ltb, leb, Bool, true, false, Bool-cases,
  ◌&&◌, ◌||◌, not, List, [], ◌∷◌, ◌++◌, length, Option, none, some, inl, inr, arith,
}
use mathlib.Core.List.{append-nil, map-append}
use gempba.Topology.Hosts.{same}
use gempba.Topology.Grouping.{same→eq, same_apart}
use gempba.Telemetry.Notes.{Annotations, replace_value, annotate_run, value_of_key, keys}

abbrev pub is_set : Option (List ℕ) → Bool
is_set none = false
is_set (some v) = true

-- Whether a key and a value have sizes that a run takes.
abbrev pub fits : List ℕ → List ℕ → Bool
fits key value = ltb 0 (length key) && (leb (length key) 32 && leb (length value) 64)

module _ (key value : List ℕ) where
  record Replaced (l l' : Annotations) : Type 0 where
    same_keys : keys l' ≡ keys l
    known : is_set (value_of_key key l) ≡ true
    values :
        (k : List ℕ) → value_of_key k l' ≡ (if same key k then some value else value_of_key k l)

  -- An entry with another key does not get in the way.
  past_other :
      (k0 k v : List ℕ) (a b : Option (List ℕ))
      → same k0 key ≡ false
      → a ≡ (if same key k then some value else b)
      → (if same k0 k then some v else a)
        ≡ (if same key k then some value else if same k0 k then some v else b)
  past_other k0 k v a b other e = elim (Bool-cases (same k0 k)) [
    | inl hit ↦ rw (hit, same_apart k0 key k other hit) refl
    | inr miss ↦ rw miss e
  ]

  replace_value_lem :
      (l : Annotations)
      → ((replace_value key value l ≡ none) × (is_set (value_of_key key l) ≡ false))
        ⊎ ((l' : Annotations) × (replace_value key value l ≡ some l') × Replaced l l')
  unfolding replace_value value_of_key
  replace_value_lem [] = inl (refl, refl)
  replace_value_lem ((k0, v) ∷ rest) = elim (Bool-cases (same k0 key)) [
    | inl first ↦ inr (
      (k0, value) ∷ rest,
      rw first refl,
      record {
        same_keys = refl;
        known = rw first refl;
        values = λ k.
            let e = ap (λ x. same x k) (same→eq k0 key first) in
            elim (Bool-cases (same key k)) [
              | inl hit ↦ rw (e, hit) refl
              | inr miss ↦ rw (e, miss) refl
            ];
      },
    )
    | inr other ↦ elim (replace_value_lem rest) [
      | inl (e, unknown) ↦ inl (rw (other, e) refl, rw other unknown)
      | inr (l', e, r) ↦ inr (
        (k0, v) ∷ l',
        rw (other, e) refl,
        record {
          same_keys = ap (◌∷◌ k0) r.same_keys;
          known = rw other r.known;
          values = λ k. past_other k0 k v _ _ other (r.values k);
        },
      )
    ]
  ]

  value_of_key-append :
      (l : Annotations) (k : List ℕ)
      → is_set (value_of_key key l) ≡ false
      → value_of_key k (l ++ (key, value) ∷ [])
        ≡ (if same key k then some value else value_of_key k l)
  unfolding value_of_key
  value_of_key-append [] k unknown = refl
  value_of_key-append ((k0, v) ∷ rest) k unknown = elim (Bool-cases (same k0 key)) [
    | inl first ↦ absurd (ground arith)
    | inr other ↦ past_other k0 k v _ _ other (value_of_key-append rest k (rw other at unknown))
  ]

abbrev refused : List ℕ → List ℕ → Bool
refused key value = (length key == 0) || (ltb 32 (length key) || ltb 64 (length value))

fits-refused : (key value : List ℕ) → fits key value ≡ not (refused key value)
fits-refused key value = ground arith

-- A call of annotate_run, looked at through the values of the keys: it is taken exactly if the key has from 1
-- to 32 bytes and the value up to 64, and the key is set already or fewer than 8 are; then the key has the
-- value, and every other key has what it had, and a new key stands behind all others, which keep their
-- order; if it is not taken, no key and no value has changed.
pub annotate_run_lem :
    (key value k : List ℕ) (l : Annotations)
    → let (l', taken) = annotate_run key value l in
      let known = is_set (value_of_key key l) in
      (taken ≡ (fits key value && (known || ltb (length l) 8)))
      × (value_of_key k l' ≡ (if taken && same key k then some value else value_of_key k l))
      × (keys l' ≡ keys l ++ (if taken && not known then key ∷ [] else []))
unfolding annotate_run
annotate_run_lem key value k l = elim (Bool-cases (refused key value)) [
  | inl bad ↦
      let unfit : fits key value ≡ false = fits-refused key value ∙ ap not bad in
      rw (bad, unfit) (refl, refl, sym (append-nil (keys l)))
  | inr good ↦
      let fit : fits key value ≡ true = fits-refused key value ∙ ap not good in
      elim (replace_value_lem key value l) [
        | inl (e, unknown) ↦ elim (Bool-cases (leb 8 (length l))) [
          | inl full ↦
              let no_room : ltb (length l) 8 ≡ false = ground arith in
              rw (good, fit, e, unknown, full, no_room) (refl, refl, sym (append-nil (keys l)))
          | inr free ↦
              let room : ltb (length l) 8 ≡ true = ground arith in
              rw (good, fit, e, unknown, free, room)
                (
                  refl,
                  value_of_key-append key value l k unknown,
                  map-append (λ x. x.0) l ((key, value) ∷ []),
                )
        ]
        | inr (l', e, r) ↦
            rw (good, fit, e, r.known) (refl, r.values k, r.same_keys ∙ sym (append-nil (keys l)))
      ]
]
