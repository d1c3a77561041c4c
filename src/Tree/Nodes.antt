-- ===== src/Tree/Nodes.antt =====
-- tree: the nodes stand in a vector and point to one another. A pointer is the index of a node, nullptr
-- is `none`. `m_dummy` is always nullptr. The loop to the last child has fuel for each child counted.
use gempba.Base.{
  ℕ, zero, suc, ◌+◌, ◌-◌, ◌==◌, leb, if◌then◌else◌, Bool, true, false, Option, none, some, update,
}

pub record TreeNode : Type 0 where
  pub parent : Option ℕ
  pub left_sibling : Option ℕ
  pub right_sibling : Option ℕ
  pub next : Option ℕ
  pub last : Option ℕ
  pub children_count : ℕ

pub record Tree : Type 0 where
  pub size : ℕ
  pub node : ℕ → TreeNode

-- A call's end: the new tree, an exception (`log_and_throw`), or a pointer that is read though it is null.
pub data Result : Type 0 where
  ok : Tree → Result
  thrown : Result
  fault : Result

unfoldable pub blank : TreeNode
blank = record {
  parent = none;
  left_sibling = none;
  right_sibling = none;
  next = none;
  last = none;
  children_count = 0;
}

-- `tree(p_size)`
unfoldable pub make : ℕ → Tree
unfolding blank
make n = record { size = n; node = λ _. blank }

abbrev pub put : Tree → ℕ → TreeNode → Tree
put t i n = record t { node = update t.node i n }

abbrev pub set_parent : Option ℕ → ℕ → Tree → Tree
set_parent p i t = put t i (record (t.node i) { parent = p })

abbrev pub set_left : Option ℕ → ℕ → Tree → Tree
set_left p i t = put t i (record (t.node i) { left_sibling = p })

abbrev pub set_right : Option ℕ → ℕ → Tree → Tree
set_right p i t = put t i (record (t.node i) { right_sibling = p })

abbrev pub set_next : Option ℕ → ℕ → Tree → Tree
set_next p i t = put t i (record (t.node i) { next = p })

abbrev pub set_last : Option ℕ → ℕ → Tree → Tree
set_last p i t = put t i (record (t.node i) { last = p })

abbrev pub set_count : ℕ → ℕ → Tree → Tree
set_count c i t = put t i (record (t.node i) { children_count = c })

abbrev pub is_null : Option ℕ → Bool
is_null none = true
is_null (some _) = false

unfoldable pub is_assigned : Tree → ℕ → Bool
is_assigned t i = elim (t.node i).parent [ none ↦ false | some _ ↦ true ]

unfoldable pub has_next : Tree → ℕ → Bool
has_next t i = elim (t.node i).next [ none ↦ false | some _ ↦ true ]

-- `while (v_tail->m_right_sibling) v_tail = v_tail->m_right_sibling`
unfoldable pub tail_from : ℕ → Tree → ℕ → Option ℕ
tail_from zero t k = none
tail_from (suc fuel) t k = elim (t.node k).right_sibling [
  | none ↦ some k
  | some r ↦ tail_from fuel t r
]

-- The end of `add_next`: `m_last` and the count.
abbrev pub counted : ℕ → ℕ → Tree → Tree
counted self i t =
    let u = set_last (some i) self t in set_count ((u.node self).children_count + 1) self u

-- The middle of `add_next`: `count` and `front` are the children's count and the first child of `self`.
unfoldable pub attach : ℕ → Option ℕ → ℕ → ℕ → Tree → Result
attach count front self i u =
    if count == 0 then ok (counted self i (set_next (some i) self u)) else elim front [
      | none ↦ fault
      | some first ↦ elim (tail_from count u first) [
        | none ↦ fault
        | some tail ↦ ok (counted self i (set_right (some i) tail (set_left (some tail) i u)))
      ]
    ]

unfoldable pub add_next : ℕ → ℕ → Tree → Result
add_next self i t =
    let u = set_parent (some self) i t in
    if leb t.size i
    then thrown
    else if is_assigned t i
    then thrown
    else attach (u.node self).children_count (u.node self).next self i u

-- `--m_children_count`
abbrev pub fewer : ℕ → Tree → Tree
fewer self u = set_count ((u.node self).children_count - 1) self u

-- The two branches of `pop_front`: `front` is the first child, `second` its right sibling.
unfoldable pub detach : Option ℕ → ℕ → ℕ → Tree → Result
detach second front self t = elim second [
  | some l ↦ ok (
      fewer self (
        set_right none front (
          set_left none front
            (set_parent none front (set_left none l (set_next (some l) self t))))))
  | none ↦ ok (fewer self (set_last none self (set_next none self (set_parent none front t))))
]

unfoldable pub pop_from : Option ℕ → ℕ → Tree → Result
pop_from next self t = elim next [
  | none ↦ thrown
  | some front ↦ detach (t.node front).right_sibling front self t
]

unfoldable pub pop_front : ℕ → Tree → Result
pop_front self t = pop_from (t.node self).next self t

-- `clear`; `none` is the end of the fuel
unfoldable pub clear : ℕ → ℕ → Tree → Option Result
clear zero self t = none
clear (suc fuel) self t = elim (t.node self).next [
  | none ↦ some (ok t)
  | some _ ↦ elim (pop_front self t) [
    | ok t' ↦ clear fuel self t'
    | thrown ↦ some thrown
    | fault ↦ some fault
  ]
]

unfoldable pub release : ℕ → Tree → Result
release i t = elim (t.node i).parent [
  | none ↦ thrown
  | some p ↦ elim (t.node i).left_sibling [
    | none ↦ pop_front p t
    | some l ↦ elim (t.node i).right_sibling [
      | some r ↦
          let u = set_left (some l) r (set_right (some r) l t) in
          let v = set_count ((u.node p).children_count - 1) p u in
          ok (set_left none i (set_right none i (set_parent none i v)))
      | none ↦
          let u = set_last (some l) p (set_right none l t) in
          let v = set_count ((u.node p).children_count - 1) p u in
          ok (set_left none i (set_parent none i v))
    ]
  ]
]
