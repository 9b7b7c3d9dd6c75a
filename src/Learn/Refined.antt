-- ===== src/Learn/Refined.antt =====
-- `refine_bases` of cdnf.c, against any teacher: the invariant of the bases across it.
use dorder.Prelude.{
  ℕ, zero, suc, ◌<◌, ◌≡◌, refl, ap, sym, ◌∙◌, subst, Bool, true, false, not, xor, List, [], ◌∷◌,
  done, ◌⊎◌, inl, inr, arith, Bool-cases, length, if◌then◌else◌, All, length-append, set, ==_refl,
}
use dorder.Bits.{Bits, value_of, extend, put}
use dorder.Bits.Laws.{put-done}
use dorder.CdnfFormula.{Disjunction}
use dorder.CdnfFormula.Meaning.{DisjunctionInRange}
use dorder.Learn.Teacher.{Teacher, Mode}
use dorder.Learn.Bases.{Basis}
use dorder.Learn.Refine.{
  Support, is_empty, rebuild_points, rebuild_disjunctions, extend_point, extend_points, extension,
  strip_bases, refine_bases,
}
use dorder.Learn.Honest.{Point}
use dorder.Learn.Sound.{SupportPoint, IsSound, point_steps}

abbrev pub IsFull : Basis → Type 0
IsFull b = is_empty b.t ≡ false

-- All bases but the last have a support.
abbrev pub FullBefore : List Basis → Type 0
FullBefore [] = Unit
FullBefore (b ∷ []) = Unit
FullBefore (b ∷ c ∷ bases) = IsFull b × FullBefore (c ∷ bases)

-- A point with one variable more.
set-extend : (v : Bits) (b c : Bool) → set (extend v b) (length v) c ≡ extend v c
set-extend [] b c = refl
set-extend (x ∷ v) b c = ap (λ w. x ∷ w) (set-extend v b c)

value_of-extend :
    (v : Bits) (b : Bool) (i : ℕ) → i < length v → value_of (extend v b) i ≡ value_of v i
value_of-extend [] b i h = absurd (omega arith)
value_of-extend (x ∷ v) b zero h = refl
value_of-extend (x ∷ v) b (suc i) h = value_of-extend v b i (omega arith)

length-extend : (v : Bits) (b : Bool) → length (extend v b) ≡ suc (length v)
length-extend v b = omega (arith, length-append v (b ∷ []))

Point-extend : (n : ℕ) (v : Bits) (b : Bool) → Point n v → Point (suc n) (extend v b)
Point-extend n v b p =
    (length-extend v b ∙ ap suc p.0, value_of-extend v b 0 (omega (arith, p.0)) ∙ p.1)

SupportPoint-extend :
    (n : ℕ) (a v : Bits) (b c : Bool)
    → Point n a
    → SupportPoint n a v
    → SupportPoint (suc n) (extend a b) (extend v c)
SupportPoint-extend n a v b c pa (pv, (j, p, q, d)) = (
  Point-extend n v c pv,
  (
    j,
    p,
    omega arith,
    rw (value_of-extend v c j (omega (arith, pv.0)), value_of-extend a b j (omega (arith, pa.0))) d,
  ),
)

put_last : (v : Bits) (b c : Bool) → put (extend v b) (length v) c ≡ done (extend v c)
put_last v b c =
    put-done (extend v b) (length v) c (omega (arith, length-extend v b))
    ∙ ap done (set-extend v b c)

module _ (teacher : Teacher) where
  extend_point-done :
      (v : Bits) (b : Bool) → (c : Bool) × (extend_point teacher (length v) b v ≡ done (extend v c))
  unfolding extend_point
  extend_point-done v b =
      let chosen = if teacher.membership (extend v b) then b else not b in
      elim (Bool-cases (xor chosen b)) [
        | inl other ↦
            (chosen, rw (==_refl (length v), put_last v false b, other, put_last v b chosen) refl)
        | inr same ↦ (b, rw (==_refl (length v), put_last v false b, same) refl)
      ]

  extend_points-done :
      (n : ℕ) (a : Bits) (b c : Bool) (vs : List Bits)
      → Point n a
      → All (SupportPoint n a) vs
      → (ws : List Bits) × (extend_points teacher (suc n) b vs ≡ done ws)
        × All (SupportPoint (suc n) (extend a c)) ws
        × (is_empty ws ≡ is_empty vs)
  unfolding extend_points
  extend_points-done n a b c [] pa h = ([], refl, tt, refl)
  extend_points-done n a b c (v ∷ vs) pa h =
      let (d, e) = extend_point-done v b in
      let (ws, e', h', _) = extend_points-done n a b c vs pa h.1 in
      (
        extend v d ∷ ws,
        rw (subst (λ l. extend_point teacher l b v ≡ done (extend v d)) h.0.0.0 e, e') refl,
        (SupportPoint-extend n a v c d pa h.0, h'),
        refl,
      )

-- A basis without its disjunction.
abbrev IsSupport : ℕ → Support → Type 0
IsSupport n s =
    Point n s.origin × All (SupportPoint n s.origin) s.points × (is_empty s.points ≡ false)

rebuild_points-done :
    (n : ℕ) (a : Bits) (vs : List Bits)
    → Point n a
    → All (SupportPoint n a) vs
    → (h : Disjunction) × (rebuild_points a vs ≡ done h)
      × DisjunctionInRange (suc n) h
      × (length h ≡ length vs)
unfolding rebuild_points
rebuild_points-done n a [] pa s = ([], refl, tt, refl)
rebuild_points-done n a (v ∷ vs) pa s =
    let (m, e, z, at, range) = point_steps n a v pa s.0.0 s.0.1 in
    let (h, e', range', len) = rebuild_points-done n a vs pa s.1 in
    (m ∷ h, rw (e, z, at, e') refl, (range, range'), ap suc len)

rebuild-done :
    (n : ℕ) (ss : List Support)
    → All (IsSupport n) ss
    → (bases : List Basis) × (rebuild_disjunctions ss ≡ done bases)
      × All (IsSound n) bases
      × All IsFull bases
unfolding rebuild_disjunctions
rebuild-done n [] h = ([], refl, tt, tt)
rebuild-done n (s ∷ ss) ((pa, points, full), rest) =
    let (h, e, range, len) = rebuild_points-done n s.origin s.points pa points in
    let (bases, e', sound, all) = rebuild-done n ss rest in
    (
      record { h = h; t = s.points; a = s.origin } ∷ bases,
      rw (e, e') refl,
      (record { origin = pa; supports = points; range = range; paired = len }, sound),
      (full, all),
    )

tail-FullBefore : (b : Basis) (bases : List Basis) → FullBefore (b ∷ bases) → FullBefore bases
tail-FullBefore b [] h = tt
tail-FullBefore b (c ∷ bases) h = h.1

last_or_IsFull :
    (b : Basis) (bases : List Basis) → FullBefore (b ∷ bases) → (is_empty bases ≡ true) ⊎ IsFull b
last_or_IsFull b [] h = inl refl
last_or_IsFull b (c ∷ bases) h = inr h.0

module _ (teacher : Teacher) (mode : Mode) (n : ℕ) where
  strip_bases-done :
      (bases : List Basis)
      → All (IsSound n) bases
      → FullBefore bases
      → (ss : List Support) × (strip_bases teacher mode bases ≡ done ss)
        × All (IsSupport (suc n)) ss
  unfolding strip_bases
  strip_bases-done [] sound full = ([], refl, tt)
  strip_bases-done (b ∷ bases) sound full =
      let e = extension teacher mode (extend b.a false) in
      let (ws, points, kept, same) =
        extend_points-done teacher n b.a e e b.t sound.0.origin sound.0.supports in
      let points' =
        subst (λ l. extend_points teacher l e b.t ≡ done ws) (sym sound.0.origin.0) points in
      let (ss, rest, good) = strip_bases-done bases sound.1 (tail-FullBefore b bases full) in
      elim (Bool-cases (is_empty b.t)) [
        | inr some_ ↦ (
          record { points = ws; origin = extend b.a e } ∷ ss,
          rw (put_last b.a false false, put_last b.a false e, some_, points', rest) (ground arith),
          ((Point-extend n b.a e sound.0.origin, kept, same ∙ some_), good),
        )
        | inl none_ ↦ elim (last_or_IsFull b bases full) [
          | inr f ↦ absurd (clash none_ f)
          | inl last ↦ (
            ss,
            rw (put_last b.a false false, put_last b.a false e, none_, last, points', rest) refl,
            good,
          )
        ]
      ]
    where
      clash : {x : Bool} → x ≡ true → x ≡ false → ⊥
      clash p q = cc

  -- On sound bases of which all but the last have a support no assertion of `refine_bases` fails;
  -- the bases that result are sound with one variable more, and all have a support.
  pub refine_bases-done :
      (bases : List Basis)
      → All (IsSound n) bases
      → FullBefore bases
      → (bases' : List Basis) × (refine_bases teacher mode bases ≡ done bases')
        × All (IsSound (suc n)) bases'
        × All IsFull bases'
  unfolding refine_bases
  refine_bases-done bases sound full =
      let (ss, e, good) = strip_bases-done bases sound full in
      let (bases', e', sound', all) = rebuild-done (suc n) ss good in
      (bases', rw (e, e') refl, sound', all)
