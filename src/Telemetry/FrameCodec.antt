-- ===== src/Telemetry/FrameCodec.antt =====
-- worker_frame_codec.hpp: a worker_frame as bytes, and back. How a compiler lays out the bytes of a
-- worker_frame_header and of an edge_counter, and how many they are, is a parameter.
use gempba.Base.{
  ℕ, zero, suc, ◌+◌, ◌-◌, ◌*◌, ◌/◌, ◌%◌, ◌<◌, ◌≡◌, refl, ap, ◌∙◌, sym, ltb, ◌==◌, ◌||◌, not, ==_iff,
  Bool-cases, inl, inr, if◌then◌else◌, false, Option, none, some, List, [], ◌∷◌, ◌++◌, length,
  length-append, take, drop, arith,
}
use gempba.Topology.Bytes.{take-append, drop-append}
use native.Mathlib.Nat.{mod-eq_of_lt, mul-add-mod_self_right, mul-div_cancel}

-- The bytes of a trivially copyable type: memcpy to them and back gives the value.
pub record Bytes (A : Type 0) : Type 0 where
  pub size : ℕ
  pub put : A → List ℕ
  pub get : List ℕ → A
  pub size_pos : 0 < size
  pub length-put : (a : A) → length (put a) ≡ size
  pub get-put : (a : A) → get (put a) ≡ a

module _ {H E : Type 0} (header : Bytes H) (edge : Bytes E) where
  unfoldable pub put_edges : List E → List ℕ
  put_edges [] = []
  put_edges (e ∷ es) = edge.put e ++ put_edges es

  unfoldable pub encode_worker_frame : H × List E → List ℕ
  encode_worker_frame (h, es) = header.put h ++ put_edges es

  unfoldable pub get_edges : ℕ → List ℕ → List E
  get_edges zero bs = []
  get_edges (suc n) bs = edge.get (take edge.size bs) ∷ get_edges n (drop edge.size bs)

  unfoldable pub decode_worker_frame : List ℕ → Option (H × List E)
  decode_worker_frame bs =
      let left = length bs - header.size in
      if ltb (length bs) header.size || not (left % edge.size == 0)
      then none
      else some
          (header.get (take header.size bs), get_edges (left / edge.size) (drop header.size bs))

  length-put_edges : (es : List E) → length (put_edges es) ≡ length es * edge.size
  unfolding put_edges
  length-put_edges [] = grind arith
  length-put_edges (e ∷ es) =
      length-append (edge.put e) (put_edges es)
      ∙ (ap (λ k. k + length (put_edges es)) (edge.length-put e)
          ∙ (ap (λ k. edge.size + k) (length-put_edges es) ∙ grind arith))

  take-size :
      {A : Type 0} (r : Bytes A) (a : A) (bs : List ℕ) → take r.size (r.put a ++ bs) ≡ r.put a
  take-size r a bs =
      ap (λ k. take k (r.put a ++ bs)) (sym (r.length-put a)) ∙ take-append (r.put a) bs

  drop-size : {A : Type 0} (r : Bytes A) (a : A) (bs : List ℕ) → drop r.size (r.put a ++ bs) ≡ bs
  drop-size r a bs =
      ap (λ k. drop k (r.put a ++ bs)) (sym (r.length-put a)) ∙ drop-append (r.put a) bs

  get_edges-put_edges : (es : List E) → get_edges (length es) (put_edges es) ≡ es
  unfolding get_edges put_edges
  get_edges-put_edges [] = refl
  get_edges-put_edges (e ∷ es) =
      rw
        (
          take-size edge e (put_edges es),
          drop-size edge e (put_edges es),
          edge.get-put e,
          get_edges-put_edges es,
        )
        refl

  length-encode :
      (h : H) (es : List E)
      → length (encode_worker_frame (h, es)) ≡ header.size + length es * edge.size
  unfolding encode_worker_frame
  length-encode h es =
      length-append (header.put h) (put_edges es)
      ∙ (ap (λ k. k + length (put_edges es)) (header.length-put h)
          ∙ ap (λ k. header.size + k) (length-put_edges es))

  parts :
      (h : H) (es : List E)
      → ◌≡◌ {A = Option (H × List E)}
          (some (
            header.get (take header.size (encode_worker_frame (h, es))),
            get_edges (length es) (drop header.size (encode_worker_frame (h, es))),
          ))
          (some (h, es))
  unfolding encode_worker_frame
  parts h es =
      rw
        (
          take-size header h (put_edges es),
          drop-size header h (put_edges es),
          header.get-put h,
          get_edges-put_edges es,
        )
        refl

  -- The body of the decoder, for data of the size of a header and `n` edges and `m` bytes of one more.
  decode_sized :
      (bs : List ℕ) (n m : ℕ)
      → length bs ≡ header.size + (n * edge.size + m)
      → m < edge.size
      → decode_worker_frame bs ≡ (
          if m == 0
          then some (header.get (take header.size bs), get_edges n (drop header.size bs))
          else none)
  unfolding decode_worker_frame
  decode_sized bs n m e lt =
      let enough : ltb (length bs) header.size ≡ false = ground arith in
      let left : length bs - header.size ≡ n * edge.size + m = omega arith in
      let over : (n * edge.size + m) % edge.size ≡ m =
        mul-add-mod_self_right n edge.size m ∙ mod-eq_of_lt lt in
      rw (enough, left, over)
        (elim (Bool-cases (m == 0)) [
          | inl whole ↦
              let quotient : (n * edge.size + m) / edge.size ≡ n =
                ap (λ k. k / edge.size) (omega (arith, (==_iff m 0).0 whole))
                ∙ mul-div_cancel n edge.size_pos in
              rw (whole, quotient) refl
          | inr cut ↦ rw cut refl
        ])

  -- A frame that is encoded is decoded to itself, whatever the bytes of its header and of its edges are, and
  -- however many edges it has.
  decode-encode :
      (h : H) (es : List E) → decode_worker_frame (encode_worker_frame (h, es)) ≡ some (h, es)
  decode-encode h es =
      let sized : length (encode_worker_frame (h, es)) ≡ header.size + (length es * edge.size + 0) =
        omega (arith, length-encode h es) in
      decode_sized (encode_worker_frame (h, es)) (length es) 0 sized edge.size_pos ∙ parts h es
