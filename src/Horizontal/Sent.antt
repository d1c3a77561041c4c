-- ===== src/Horizontal/Sent.antt =====
-- All rounds of `send`.
use gempba.Base.{
  ℕ, zero, suc, ◌+◌, ◌<◌, ◌≡◌, refl, sym, ◌∙◌, ap, subst, ◌==◌, leb, true, false, List, [], ◌∷◌,
  ◌++◌, length, take, none, All, arith,
}
use mathlib.Core.List.{append-nil, append_assoc}
use gempba.Links.Store.{elem}
use gempba.Links.Distinct.{Distinct}
use gempba.Node.Life.{Node, Effect}
use gempba.Node.WorkStealing.{Env}
use gempba.Horizontal.Sending.{Forest, Ending, answered, Way, get_root_level_pending_node}
use gempba.Horizontal.Submission.{send}
use gempba.Horizontal.Spine.{Levels, IsHeld, IsHeld-parent, IsHeld-get_root}
use gempba.Horizontal.Trimming.{skip_idle}
use gempba.Horizontal.Fixing.{Fixes, leaf_root-Fixes, own_parent, leftmost-Fixes}
use gempba.Horizontal.Order.{
  order, corrected, order-skip_idle, order-nonempty, corrected-skip_idle, length-skip_idle,
  no_parent, top_level,
}
use gempba.Horizontal.Handing.{
  handing, is_ready, goes, send_refused, send_own, send_on, pending_round, push_nothing, push_own,
}

module _ {A P : Type 0} (w : Way A P) where
  abbrev pub handing_all : (ℕ → Node A P) → List ℕ → List (Effect A P)
  handing_all nodes [] = []
  handing_all nodes (i ∷ is) = handing w (nodes i) ++ handing_all nodes is

  -- What a node that is not among them becomes does not matter.
  module _ (c : ℕ) (g f : ℕ → Node A P) (others : (j : ℕ) → (j == c) ≡ false → g j ≡ f j) where
    handing_all-agree :
        (k : ℕ) (xs : List ℕ)
        → elem c xs ≡ false
        → handing_all g (take k xs) ≡ handing_all f (take k xs)
    handing_all-agree zero xs h = refl
    handing_all-agree (suc k) [] h = refl
    handing_all-agree (suc k) (x ∷ xs) h =
        rw (others x (ground arith), handing_all-agree k xs (ground arith)) refl

    ready-agree :
        (xs : List ℕ)
        → elem c xs ≡ false
        → All (λ i. is_ready w (f i) ≡ true) xs
        → All (λ i. is_ready w (g i) ≡ true) xs
    ready-agree [] h a = tt
    ready-agree (x ∷ xs) h a =
        (ap (is_ready w) (others x (ground arith)) ∙ a.0, ready-agree xs (ground arith) a.1)

  -- After `k` rounds: so many of the nodes have been handed over, and the answer tells whether that was all.
  abbrev pub IsSent : List ℕ → ℕ → Forest A P → Forest A P × Ending → Type 0
  IsSent nodes k f (g, ending) =
      (g.effects ≡ f.effects ++ handing_all f.nodes (take k nodes))
      × (ending ≡ answered (leb (length nodes) k))

  one_more :
      (c k : ℕ) (rest : List ℕ) (f g : Forest A P) (out : Forest A P × Ending)
      → g.effects ≡ f.effects ++ handing w (f.nodes c)
      → ((j : ℕ) → (j == c) ≡ false → g.nodes j ≡ f.nodes j)
      → elem c rest ≡ false
      → IsSent rest k g out
      → IsSent (c ∷ rest) (suc k) f out
  one_more c k rest f g (o, ending) effects others fresh (sent, ends) = (
    sent
        ∙ rw (effects, handing_all-agree c g.nodes f.nodes others k rest fresh)
            (append_assoc f.effects (handing w (f.nodes c)) (handing_all f.nodes (take k rest))),
    ends ∙ ap answered (ground arith),
  )

  handing_all-nil : (nodes : ℕ → Node A P) (k : ℕ) → handing_all nodes (take k []) ≡ []
  handing_all-nil nodes zero = refl
  handing_all-nil nodes (suc k) = refl

  module _ (fuel t p : ℕ) (refusing : Env) (later : List Env)
      (refused : goes w refusing ≡ false) where
    last_round :
        (e : Env) (es : List Env) (f : Forest A P)
        → goes w e ≡ true
        → get_root_level_pending_node p f.store ≡ (none, f.store)
        → Fixes fuel p f.store
        → is_ready w (f.nodes p) ≡ true
        → IsSent (p ∷ []) (suc (length es)) f (send fuel w (e ∷ es ++ refusing ∷ later) p f)
    last_round e es f going none_found fixes ready =
        let own = push_own w fuel p f fixes ready in
        rw
          (
            send_own w fuel p f e (es ++ refusing ∷ later) going
                (push_nothing w fuel p f none_found),
            handing_all-nil f.nodes (length es),
            append-nil (handing w (f.nodes p)),
          )
          (own.0, own.1 ∙ ap answered (ground arith))

    -- The root of `p` has been corrected, and the nodes concerned are distinct, not consumed and fit to be
    -- delegated. In rounds in which the lock is free and nothing refuses, up to one that refuses, `send` hands
    -- over (or discards) the pending nodes from the root's level down, each level from the left, and then the
    -- node itself, one in each round; it answers true exactly if the rounds were enough for all of them.
    pub send-IsSent :
        (es : List Env) (r : ℕ) (levels : Levels) (f : Forest A P)
        → All (λ e. goes w e ≡ true) es
        → length levels + 2 < fuel
        → IsHeld t p r levels f.store
        → corrected levels ≡ true
        → Distinct (order p levels)
        → All (λ i. is_ready w (f.nodes i) ≡ true) (order p levels)
        → IsSent (order p levels) (length es) f (send fuel w (es ++ refusing ∷ later) p f)
    send-IsSent [] r levels f going enough held top distinct ready =
        let none_sent = send_refused w fuel p f refusing later refused in
        (
          none_sent.0 ∙ sym (append-nil f.effects),
          none_sent.1 ∙ ap answered (sym (order-nonempty p levels)),
        )
    send-IsSent (e ∷ es) r [] f going enough held top distinct ready =
        last_round e es f going.0
          (no_parent p r f.store
            (subst (λ x. (f.store.link x).parent ≡ none) held.path.0 (IsHeld-parent held)))
          (leaf_root-Fixes fuel t p r f.store held) ready.0
    send-IsSent (e ∷ es) r ((n, pending) ∷ []) f going enough held top distinct ready =
        let own : IsHeld t p r ((p, pending) ∷ []) f.store =
          subst (λ x. IsHeld t p r ((x, pending) ∷ []) f.store) held.path.3.0 held in
        last_round e es f going.0
          (top_level p r f.store (own_parent t p r pending f.store own) (IsHeld-get_root held))
          (leftmost-Fixes t p r pending f.store own fuel (omega arith)) ready.0
    send-IsSent (e ∷ es) r ((n, []) ∷ below ∷ levels) f going enough held top distinct ready = cc
    send-IsSent (e ∷ es) r ((n, c ∷ cs) ∷ (m, ahead) ∷ levels) f going enough held top distinct
          ready =
        let (g, found, effects, others, trimmed) =
          pending_round w fuel t p r n c cs m ahead levels f (omega arith) held ready.0 in
        let rest : Levels = (n, cs) ∷ (m, ahead) ∷ levels in
        let same = order-skip_idle p r rest in
        let on =
          send-IsSent es (skip_idle r rest).0 (skip_idle r rest).1 g going.1
            (omega (arith, length-skip_idle r rest)) trimmed (corrected-skip_idle r rest)
            (subst Distinct (sym same) distinct.1)
            (subst (All (λ i. is_ready w (g.nodes i) ≡ true)) (sym same)
              (ready-agree c g.nodes f.nodes others (order p rest) distinct.0 ready.1)) in
        rw (send_on w fuel p f e (es ++ refusing ∷ later) g going.0 found) (
          one_more c (length es) (order p rest) f g (send fuel w (es ++ refusing ∷ later) p g)
            effects others distinct.0
            (subst (λ nodes. IsSent nodes (length es) g (send fuel w (es ++ refusing ∷ later) p g))
              same on))
