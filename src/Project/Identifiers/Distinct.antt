-- ===== src/Project/Identifiers/Distinct.antt =====
-- What `parse_runtime_identifiers` of crates/dv-core/src/project.rs lists.
use mathlib.Core.Path.{subst}
use dv.Common.{
  ◌≡◌, true, false, some, List, [], ◌∷◌, ◌++◌, Has, here, there, Has-cons, ◌↔◌, ◌⊎◌, inl, inr,
  Bool-cases, either, arith,
}
use dv.Common.Text.{Text, text_eq}
use dv.Common.TreeMap.{text_eq→≡, text_eq_refl}
use dv.Common.Result.{ok, err}
use dv.Project.{ProjectErrorKind, has_reference}
use dv.Project.Identifiers.{listed, distinct, entries, parse_runtime_identifiers}

abbrev pub Unique : List Text → Type 0
Unique [] = Unit {0}
Unique (x ∷ xs) = ¬ Has x xs × Unique xs

Has-append : (x : Text) (xs ys : List Text) → Has x (xs ++ ys) ↔ (Has x xs ⊎ Has x ys)
Has-append x [] ys = (λ h. inr h, λ h. elim h [ inl m ↦ elim m [ ] | inr m ↦ m ])
Has-append x (y ∷ xs) ys = (
  λ h. elim (Has-cons h) [
    | inl e ↦ inl (rw e here)
    | inr m ↦ elim ((Has-append x xs ys).0 m) [ inl k ↦ inl (there k) | inr k ↦ inr k ]
  ],
  λ h. elim h [
    | inl m ↦ elim (Has-cons m) [
      | inl e ↦ rw e here
      | inr k ↦ there ((Has-append x xs ys).1 (inl k))
    ]
    | inr m ↦ there ((Has-append x xs ys).1 (inr m))
  ],
)

listed-Has : (id : Text) (ids : List Text) → listed id ids ≡ true → Has id ids
listed-Has id [] h = cc
listed-Has id (x ∷ xs) h = elim (Bool-cases (text_eq x id)) [
  | inl same ↦ rw (text_eq→≡ x id same) here
  | inr other ↦ there (listed-Has id xs (rw other at h))
]

listed-missing : (id : Text) (ids : List Text) → listed id ids ≡ false → ¬ Has id ids
listed-missing id [] h m = elim m [ ]
listed-missing id (x ∷ xs) h m = elim (Has-cons m) [
  | inl e ↦ let same : text_eq x id ≡ true = rw e (text_eq_refl x) in ground (arith, h, same)
  | inr k ↦ listed-missing id xs (ground (arith, h)) k
]

Unique-append : (xs : List Text) (x : Text) → Unique xs → ¬ Has x xs → Unique (xs ++ (x ∷ []))
Unique-append [] x u h = ((λ m. elim m [ ]), tt)
Unique-append (y ∷ xs) x (n, u) h = (
  (λ m. elim ((Has-append y xs (x ∷ [])).0 m) [
    | inl k ↦ n k
    | inr k ↦ elim (Has-cons k) [ inl e ↦ h (rw e here) | inr l ↦ elim l [ ] ]
  ]),
  Unique-append xs x u (λ m. h (there m)),
)

-- The loop keeps what it has and adds what is new.
distinct-Has :
    (x : Text) (kept ids : List Text) → Has x (distinct kept ids) ↔ (Has x kept ⊎ Has x ids)
unfolding distinct
distinct-Has x kept [] = (λ h. inl h, λ h. elim h [ inl m ↦ m | inr m ↦ elim m [ ] ])
distinct-Has x kept (id ∷ ids) =
    either (λ l. Has x l ↔ (Has x kept ⊎ Has x (id ∷ ids))) (listed id kept) (distinct kept ids)
      (distinct (kept ++ (id ∷ [])) ids)
      (λ old. (
        λ h. elim ((distinct-Has x kept ids).0 h) [ inl m ↦ inl m | inr m ↦ inr (there m) ],
        λ h. (distinct-Has x kept ids).1 (elim h [
          | inl m ↦ inl m
          | inr m ↦ elim (Has-cons m) [
            | inl e ↦ inl (rw e (listed-Has id kept old))
            | inr k ↦ inr k
          ]
        ]),
      ))
      (λ new. (
        λ h. elim ((distinct-Has x (kept ++ (id ∷ [])) ids).0 h) [
          | inl m ↦ elim ((Has-append x kept (id ∷ [])).0 m) [
            | inl k ↦ inl k
            | inr k ↦ elim (Has-cons k) [ inl e ↦ inr (rw e here) | inr l ↦ elim l [ ] ]
          ]
          | inr m ↦ inr (there m)
        ],
        λ h. (distinct-Has x (kept ++ (id ∷ [])) ids).1 (elim h [
          | inl m ↦ inl ((Has-append x kept (id ∷ [])).1 (inl m))
          | inr m ↦ elim (Has-cons m) [
            | inl e ↦ inl ((Has-append x kept (id ∷ [])).1 (inr (rw e here)))
            | inr k ↦ inr k
          ]
        ]),
      ))

distinct-Unique : (kept ids : List Text) → Unique kept → Unique (distinct kept ids)
unfolding distinct
distinct-Unique kept [] u = u
distinct-Unique kept (id ∷ ids) u =
    either Unique (listed id kept) (distinct kept ids) (distinct (kept ++ (id ∷ [])) ids)
      (λ old. distinct-Unique kept ids u)
      (λ new.
        distinct-Unique (kept ++ (id ∷ [])) ids
          (Unique-append kept id u (listed-missing id kept new)))

-- Where a list of runtime identifiers is read, it has the entries between the semicolons that are
-- not blank, trimmed, each of them once.
pub runtime_identifiers_distinct :
    (value : Text) (ids : List Text)
    → parse_runtime_identifiers (some value) ≡ ok ids
    → ((x : Text) → Has x ids ↔ Has x (entries value)) × Unique ids
unfolding parse_runtime_identifiers
runtime_identifiers_distinct value ids h = elim (Bool-cases (has_reference value)) [
  | inl refused ↦ let e : err ProjectErrorKind.invalid_property ≡ ok ids = rw refused at h in cc e
  | inr literal ↦
      let e : ok (distinct [] (entries value)) ≡ ok ids = rw literal at h in
      let same : distinct [] (entries value) ≡ ids = cc e in
      subst (λ l. ((x : Text) → Has x l ↔ Has x (entries value)) × Unique l) same
        (
          (λ x. (
            λ m. elim ((distinct-Has x [] (entries value)).0 m) [ inl k ↦ elim k [ ] | inr k ↦ k ],
            λ m. (distinct-Has x [] (entries value)).1 (inr m),
          )),
          distinct-Unique [] (entries value) tt,
        )
]
