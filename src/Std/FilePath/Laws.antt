-- ===== src/Std/FilePath/Laws.antt =====
-- The length of a parent.
use mathlib.Core.Option.{some-injective}
use ps2hdd_rs.Prelude.{
  ℕ, suc, ◌+◌, ◌≤◌, ◌<◌, Text, List, [], ◌∷◌, ◌++◌, ◌≡◌, refl, ap, inl, inr, false, arith, Option,
  none, some, length, length-append, ◌==◌, Bool-cases, if◌then◌else◌, List-cases,
}
use ps2hdd_rs.Std.FilePath.{
  split_slash, join_slash, is_trivial, trim_right, drop_last, parent_of_body, leads_with_dot,
  parent,
}

abbrev size : List Text → ℕ
size parts = length (join_slash parts)

size-cons : (p q : Text) (ps : List Text) → size (p ∷ q ∷ ps) ≡ length p + suc (size (q ∷ ps))
unfolding join_slash
size-cons p q ps = length-append p (b'/' ∷ join_slash (q ∷ ps))

size-le : (p : Text) (ps : List Text) → length p ≤ size (p ∷ ps)
size-le p [] = unfold join_slash in omega arith
size-le p (q ∷ ps) = omega (arith, size-cons p q ps)

size-trim_right : (ps : List Text) → size (trim_right ps) ≤ size ps
unfolding trim_right join_slash
size-trim_right [] = omega arith
size-trim_right (p ∷ ps) = elim (List-cases (trim_right ps)) [
  | inl gone ↦
      rw (gone, trim_right)
        (elim (Bool-cases (is_trivial p)) [
          | inl trivial ↦ rw trivial (unfold join_slash in omega arith)
          | inr real ↦ rw real (size-le p ps)
        ])
  | inr (k, more, e) ↦ rw (e, trim_right) (grow p k more ps (rw e at (size-trim_right ps)) e)
]
  where
    grow :
        (p k : Text) (more ps : List Text)
        → size (k ∷ more) ≤ size ps
        → trim_right ps ≡ k ∷ more
        → size (p ∷ k ∷ more) ≤ size (p ∷ ps)
    grow p k more [] h e = absurd (cc)
    grow p k more (q ∷ qs) h e = omega (arith, size-cons p k more, size-cons p q qs)

-- A path that keeps its last component ends in one that is no `.` and not empty.
size-drop_last : (p q : Text) (ps : List Text) → size (drop_last (p ∷ q ∷ ps)) < size (p ∷ q ∷ ps)
unfolding drop_last join_slash
size-drop_last p q [] = omega (arith, size-cons p q [], size-le p [])
size-drop_last p q (r ∷ ps) =
    omega (arith, size-cons p q (r ∷ ps), size-cons p q (drop_last (r ∷ ps)), size-drop_last q r ps)

trim_right-single : (ps : List Text) (p : Text) → trim_right ps ≡ p ∷ [] → is_trivial p ≡ false
unfolding trim_right
trim_right-single [] p h = absurd (cc)
trim_right-single (r ∷ ps) p h = elim (List-cases (trim_right ps)) [
  | inl gone ↦ ground arith
  | inr (k, more, e) ↦ ground arith
]

length-real : (p : Text) → is_trivial p ≡ false → 0 < length p
length-real [] h = absurd (cc)
length-real (c ∷ p) h = omega arith

-- Taking the last component and what is trivial before it leaves less.
size-parts :
    (parts : List Text) (p : Text) (ps : List Text)
    → trim_right parts ≡ p ∷ ps
    → size (trim_right (drop_last (p ∷ ps))) < size parts
unfolding drop_last trim_right join_slash
size-parts parts p [] e = omega (
  arith,
  rw e at (size-trim_right parts),
  size-le p [],
  length-real p (trim_right-single parts p e),
)
size-parts parts p (q ∷ ps) e = omega (
  arith,
  rw e at (size-trim_right parts),
  size-drop_last p q ps,
  size-trim_right (drop_last (p ∷ q ∷ ps)),
)

split-ne-nil : (s : Text) → split_slash s ≡ [] → ⊥
unfolding split_slash
split-ne-nil [] h = cc
split-ne-nil (c ∷ s) h = elim (List-cases (split_slash s)) [
  | inl gone ↦ split-ne-nil s gone
  | inr (p, ps, e) ↦ ground arith
]

join-push :
    (c : ℕ) (p : Text) (ps : List Text) (s : Text)
    → join_slash (p ∷ ps) ≡ s
    → join_slash (if c == b'/' then [] ∷ p ∷ ps else (c ∷ p) ∷ ps) ≡ c ∷ s
unfolding join_slash
join-push c p ps s h = elim (Bool-cases (c == b'/')) [
  | inl slash ↦ let e : b'/' ≡ c = ground arith in rw slash (rw (h, e))
  | inr other ↦ rw other (longer ps h)
]
  where
    longer : (ps : List Text) → join_slash (p ∷ ps) ≡ s → join_slash ((c ∷ p) ∷ ps) ≡ c ∷ s
    longer [] h = ap (λ r. c ∷ r) h
    longer (q ∷ qs) h = ap (λ r. c ∷ r) h

join-split : (s : Text) → join_slash (split_slash s) ≡ s
unfolding join_slash split_slash
join-split [] = refl
join-split (c ∷ s) = elim (List-cases (split_slash s)) [
  | inl gone ↦ absurd (split-ne-nil s gone)
  | inr (p, ps, e) ↦ rw (e, split_slash) (join-push c p ps s (rw e at (join-split s)))
]

parent_of_body-lt :
    (head : Text) (none_left : Option Text) (body : Text) {t : Text}
    → ((u : Text) → none_left ≡ some u → length u < length head + length body)
    → parent_of_body head none_left (trim_right (split_slash body)) ≡ some t
    → length t < length head + length body
unfolding parent_of_body
parent_of_body-lt head none_left body {t} h e = elim (List-cases (trim_right (split_slash body))) [
  | inl gone ↦ h t (rw gone at e)
  | inr (p, ps, found) ↦
      let rest = join_slash (trim_right (drop_last (p ∷ ps))) in
      let same = some-injective (head ++ rest) t (rw found at e) in
      omega (
        arith,
        ap length same,
        length-append head rest,
        size-parts (split_slash body) p ps found,
        ap length (join-split body),
      )
]

-- A parent is shorter, so a walk up the tree ends.
pub length-parent : (s : Text) {t : Text} → parent s ≡ some t → length t < length s
unfolding parent
length-parent [] h = absurd (cc)
length-parent (c ∷ s) {t} h = elim (Bool-cases (c == b'/')) [
  | inl root ↦ omega (arith, parent_of_body-lt (c ∷ []) none s (λ u e. absurd (cc)) (rw root at h))
  | inr relative ↦ elim (Bool-cases (leads_with_dot c s)) [
    | inl dot ↦
        omega (arith, parent_of_body-lt (c ∷ []) (some []) s (dot_left s) (rw (relative, dot) at h))
    | inr plain ↦
        omega (
          arith,
          parent_of_body-lt [] none (c ∷ s) (λ u e. absurd (cc)) (rw (relative, plain) at h),
        )
  ]
]
  where
    dot_left :
        (body : Text) (u : Text) → some [] ≡ some u → length u < length (c ∷ []) + length body
    dot_left body u e = ground arith
