-- ===== src/BoolFormula/Store/Free.antt =====
-- `boolformula_free` of boolformula.c on a store whose reference counts are right: what it reads and
-- frees, and the counts that it leaves.
use dorder.Prelude.{
  ℕ, suc, ◌+◌, ◌≤◌, ◌<◌, ◌≡◌, ◌≢◌, refl, sym, ap, subst, ◌∙◌, Bool, true, false, List, [], ◌∷◌,
  ◌++◌, Option, none, some, Run, done, arith, Bool-cases, inl, inr, length, get_elem?, set,
  get_or-set_self, get_or-set_ne, get_elem?-eq-get_or, length-append,
}
use mathlib.Core.List.{append_assoc}
use dorder.BoolFormula.Store.{
  Ptr, Content, Cell, freed, node, Store, slots, load, read_slot, for_slots,
}
use dorder.BoolFormula.Store.Count.{
  pointers, count, cell_slots, cell_ref, is_live, in_refs, live_count, at, at-lt,
}

-- Every slot was written to.
abbrev pub IsFilled : List (Option Ptr) → Type 0
IsFilled [] = Unit
IsFilled (none ∷ v) = ⊥
IsFilled (some p ∷ v) = IsFilled v

-- Every slot of the objects behind the last one of `s` was written to.
abbrev pub IsFull : Store → Store → Type 0
IsFull s s' = (q : Ptr) → length s ≤ q → IsFilled (cell_slots (at s' q))

-- Each reference count is the number of the slots that hold the pointer, of the pointers `held`
-- outside, and of those that were lost; and every slot was written to.
pub record IsAccounted (lost : Ptr → ℕ) (s : Store) (held : List Ptr) : Type 0 where
  pub counted : (p : Ptr) → cell_ref (at s p) ≡ in_refs p s + count p held + lost p
  pub filled : (p : Ptr) → IsFilled (cell_slots (at s p))

freed-of : (c : Cell) → is_live c ≡ false → c ≡ freed
freed-of freed e = refl
freed-of (node ref c) e = cc

pub load-done :
    (s : Store) (p : Ptr) {ref : ℕ} {c : Content} → at s p ≡ node ref c → load s p ≡ done (ref, c)
unfolding load
load-done s p e = rw (get_elem?-eq-get_or s p freed (at-lt s p (ap is_live e)), e) refl

pub at-set_self : (s : Store) (p : Ptr) (d : Cell) → is_live (at s p) ≡ true → at (set s p d) p ≡ d
at-set_self s p d e = get_or-set_self s p d freed (at-lt s p e)

pub at-set_ne : (s : Store) (p q : Ptr) (d : Cell) → p ≢ q → at (set s p d) q ≡ at s q
at-set_ne s p q d h = get_or-set_ne s p q d freed h

-- From the ghost `m`, in which the objects that are being freed are gone already, and the store
-- `s`, to `m'` and `s'`: an object of `m` is in `s'` what it is in `m'`, and no other changes.
pub record Frees (m s m' s' : Store) : Type 0 where
  pub objects : (q : Ptr) → is_live (at m q) ≡ true → at s' q ≡ at m' q
  pub others : (q : Ptr) → is_live (at m q) ≡ false → (at m' q ≡ freed) × (at s' q ≡ at s q)
  pub size : length m' ≡ length m
  pub fewer : live_count m' ≤ live_count m

-- The objects of the ghost are those of the store.
abbrev pub Within : Store → Store → Type 0
Within m s = (q : Ptr) → is_live (at m q) ≡ true → at s q ≡ at m q

module _ (lost : Ptr → ℕ) where
  -- What a call that gives up the pointer `g` has to do.
  abbrev pub Frees-call : (Ptr → Store → Run Store) → ℕ → Type 0
  Frees-call call bound =
      (g : Ptr) (m s : Store) (held : List Ptr)
      → IsAccounted lost m (g ∷ held)
      → Within m s
      → length s ≡ length m
      → live_count m < bound
      → (s' : Store) × (m' : Store) × (call g s ≡ done s')
        × IsAccounted lost m' held
        × Frees m s m' s'
        × (length s' ≡ length s)

  not_true : {b : Bool} → b ≡ true → b ≡ false → ⊥
  not_true p q = cc

  -- After a call the ghost still lies within the store.
  Frees-Within : (m s m' s' : Store) → Frees m s m' s' → Within m' s'
  Frees-Within m s m' s' f q e = elim (Bool-cases (is_live (at m q))) [
    | inl old ↦ f.objects q old
    | inr gone ↦ absurd (not_true e (ap is_live (f.others q gone).0))
  ]

  Frees-trans : (m s m₁ s₁ m₂ s₂ : Store) → Frees m s m₁ s₁ → Frees m₁ s₁ m₂ s₂ → Frees m s m₂ s₂
  Frees-trans m s m₁ s₁ m₂ s₂ f g = record {
    objects = λ q e. elim (Bool-cases (is_live (at m₁ q))) [
      | inl still ↦ g.objects q still
      | inr gone ↦
          let (a, b) = g.others q gone in b ∙ (f.objects q e ∙ (freed-of (at m₁ q) gone ∙ sym a))
    ];
    others =
        λ q e. let (a, b) = f.others q e in let (c, d) = g.others q (ap is_live a) in (c, d ∙ b);
    size = g.size ∙ f.size;
    fewer = omega (arith, f.fewer, g.fewer);
  }

  nth :
      (pre : List (Option Ptr)) (x : Option Ptr) (rest : List (Option Ptr))
      → get_elem? (pre ++ x ∷ rest) (length pre) ≡ some x
  nth [] x rest = refl
  nth (y ∷ pre) x rest = nth pre x rest

  module _ (call : Ptr → Store → Run Store) (bound : ℕ) (calls : Frees-call call bound) where
    -- The loop over the slots of an object `f` that the ghost has no more gives up all of them.
    pub for_slots-Frees :
        (rest pre : List (Option Ptr)) (f : Ptr) (ref : ℕ) (c : Content) (m s : Store)
        (held : List Ptr)
        → slots c ≡ pre ++ rest
        → IsFilled rest
        → at s f ≡ node ref c
        → is_live (at m f) ≡ false
        → IsAccounted lost m (pointers rest ++ held)
        → Within m s
        → length s ≡ length m
        → live_count m < bound
        → (s' : Store) × (m' : Store) × (for_slots call f (length pre) (length rest) s ≡ done s')
          × IsAccounted lost m' held
          × Frees m s m' s'
          × (length s' ≡ length s)
    unfolding for_slots read_slot
    for_slots-Frees [] pre f ref c m s held e full here gone acc within len b = (
      s,
      m,
      refl,
      acc,
      record {
        objects = within;
        others = λ q z. (freed-of (at m q) z, refl);
        size = refl;
        fewer = omega arith;
      },
      refl,
    )
    for_slots-Frees (none ∷ rest) pre f ref c m s held e full here gone acc within len b =
        absurd full
    for_slots-Frees (some g ∷ rest) pre f ref c m s held e full here gone acc within len b =
        let (s₁, m₁, r₁, acc₁, f₁, l₁) = calls g m s (pointers rest ++ held) acc within len b in
        let (a, same) = f₁.others f gone in
        let (s₂, m₂, r₂, acc₂, f₂, l₂) =
          for_slots-Frees rest (pre ++ some g ∷ []) f ref c m₁ s₁ held
            (e ∙ sym (append_assoc pre (some g ∷ []) rest)) full (same ∙ here) (ap is_live a) acc₁
            (Frees-Within m s m₁ s₁ f₁) (l₁ ∙ (len ∙ sym f₁.size)) (omega (arith, f₁.fewer)) in
        let next : length (pre ++ some g ∷ []) ≡ suc (length pre) =
          omega (arith, length-append pre (some g ∷ [])) in
        (
          s₂,
          m₂,
          rw (load-done s f here, e, nth pre (some g) rest, r₁)
              (subst (λ k. for_slots call f k (length rest) s₁ ≡ done s₂) next r₂),
          acc₂,
          Frees-trans m s m₁ s₁ m₂ s₂ f₁ f₂,
          l₂ ∙ l₁,
        )
