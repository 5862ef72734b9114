-- ===== src/AuthService/Rbac/Laws.antt =====
-- The permissions of a list of roles.
use aiself_healer.Common.{
  String, true, some, List, [], ◌∷◌, ◌≡◌, ◌⊎◌, ◌↔◌, any, arith, inl, inr, refl, ◌∙◌,
  mem-append_left, mem-append_right, mem-append_cases, mem-cons_cases, IsDistinct,
  IsDistinct-append_one, Bool-cases, eq_iff, any-mem, any-false, Memᴰ, sym,
}
use mathlib.Core.Path.{subst}
use mathlib.Core.Bool.{false≢true}
use aiself_healer.AuthService.Rbac.{
  Permission, named, inherited, same_permission, entry, flat_entries, add, add_all, permissions_for,
}

same_permission_iff : (p q : Permission) → (same_permission p q ≡ true) ↔ (p ≡ q)
same_permission_iff (named p) (named q) = ground (arith, eq_iff p q)
same_permission_iff (inherited p) (inherited q) = ground (arith, eq_iff p q)
same_permission_iff (named p) (inherited q) = ground arith
same_permission_iff (inherited p) (named q) = ground arith

mem-add_iff : (p q : Permission) (s : List Permission) → Memᴰ p (add s q) ↔ (Memᴰ p s ⊎ (p ≡ q))
unfolding add
mem-add_iff p q s = elim (Bool-cases (any (λ r. same_permission r q) s)) [
  | inl old ↦
      let (r, m, e) = any-mem (λ r. same_permission r q) s old in
      rw old (
        λ h. inl h,
        λ c. elim c [
          | inl h ↦ h
          | inr same ↦ subst (λ x. Memᴰ x s) ((same_permission_iff r q).0 e ∙ sym same) m
        ],
      )
  | inr new ↦ rw new (
    λ h. elim (mem-append_cases s (q ∷ []) h) [ inl m ↦ inl m | inr m ↦ inr (mem-one m) ],
    λ c. elim c [
      | inl h ↦ mem-append_left s (q ∷ []) h
      | inr same ↦ mem-append_right s (q ∷ []) (Memᴰ.head same)
    ],
  )
]
  where
    mem-one : Memᴰ p (q ∷ []) → p ≡ q
    mem-one (Memᴰ.head e) = e
    mem-one (Memᴰ.tail m) = elim m [ ]

mem-add_all_iff :
    (p : Permission) (s ps : List Permission) → Memᴰ p (add_all s ps) ↔ (Memᴰ p s ⊎ Memᴰ p ps)
unfolding add_all
mem-add_all_iff p s [] = (λ h. inl h, λ c. elim c [ inl h ↦ h | inr m ↦ elim m [ ] ])
mem-add_all_iff p s (q ∷ ps) =
    let (to, from) = mem-add_all_iff p (add s q) ps in
    let (split, join) = mem-add_iff p q s in
    (
      λ h. elim (to h) [
        | inl m ↦ elim (split m) [ inl old ↦ inl old | inr same ↦ inr (Memᴰ.head same) ]
        | inr m ↦ inr (Memᴰ.tail m)
      ],
      λ c. elim c [
        | inl m ↦ from (inl (join (inl m)))
        | inr m ↦ elim (mem-cons_cases m) [
          | inl same ↦ from (inl (join (inr same)))
          | inr later ↦ from (inr later)
        ]
      ],
    )

mem-flat_entries_iff :
    (p : Permission) (roles : List String)
    → Memᴰ p (flat_entries roles) ↔ ((role : String) × Memᴰ role roles × Memᴰ p (entry role))
unfolding flat_entries
mem-flat_entries_iff p [] = (λ m. elim m [ ], λ r. elim r.1 [ ])
mem-flat_entries_iff p (role ∷ roles) =
    let (to, from) = mem-flat_entries_iff p roles in
    (
      λ m. elim (mem-append_cases (entry role) (flat_entries roles) m) [
        | inl here ↦ (role, Memᴰ.head refl, here)
        | inr later ↦ let (r, listed, has) = to later in (r, Memᴰ.tail listed, has)
      ],
      λ r. elim (mem-cons_cases r.1) [
        | inl same ↦
            mem-append_left (entry role) (flat_entries roles)
              (subst (λ x. Memᴰ p (entry x)) same r.2)
        | inr later ↦ mem-append_right (entry role) (flat_entries roles) (from (r.0, later, r.2))
      ],
    )

-- A permission is given exactly when one of the roles has it.
pub permissions_for_iff :
    (p : Permission) (roles : List String)
    → Memᴰ p (permissions_for (some roles))
      ↔ ((role : String) × Memᴰ role roles × Memᴰ p (entry role))
unfolding permissions_for
permissions_for_iff p roles =
    let (to, from) = mem-add_all_iff p [] (flat_entries roles) in
    let (flat_to, flat_from) = mem-flat_entries_iff p roles in
    (
      λ m. elim (to m) [ inl none_yet ↦ elim none_yet [ ] | inr listed ↦ flat_to listed ],
      λ r. from (inr (flat_from r)),
    )

add-IsDistinct : (s : List Permission) (p : Permission) → IsDistinct s → IsDistinct (add s p)
unfolding add
add-IsDistinct s p d = elim (Bool-cases (any (λ q. same_permission q p) s)) [
  | inl old ↦ rw old d
  | inr new ↦ rw new (
      IsDistinct-append_one s p d (λ m.
        false≢true (
          sym (any-false (λ q. same_permission q p) p s m new) ∙ (same_permission_iff p p).1 refl)))
]

add_all-IsDistinct : (s ps : List Permission) → IsDistinct s → IsDistinct (add_all s ps)
unfolding add_all
add_all-IsDistinct s [] d = d
add_all-IsDistinct s (p ∷ ps) d = add_all-IsDistinct (add s p) ps (add-IsDistinct s p d)

-- No permission is given twice, whatever roles repeat or share it.
pub permissions_for-IsDistinct : (roles : List String) → IsDistinct (permissions_for (some roles))
unfolding permissions_for
permissions_for-IsDistinct roles = add_all-IsDistinct [] (flat_entries roles) tt
