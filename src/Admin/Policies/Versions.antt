-- ===== src/Admin/Policies/Versions.antt =====
-- The invariant of the table of policy versions: its key is unique, and of each tenant and action at most
-- one version is published.
use lamdis_core.Prelude.{
  ℕ, suc, ◌+◌, ◌≤◌, ◌≡◌, ◌⊎◌, inl, inr, refl, ap, Bool, true, false, ◌&&◌, ◌||◌, Option, none, some,
  List, [], ◌∷◌, arith, if◌then◌else◌, ◌==◌, ℤ, pos, negsuc, eq_ℤ, Bool-cases, Option-cases, null,
  and_true,
}
use lamdis_core.Text.{Text, text_eq, trim_space}
use lamdis_core.Text.Laws.{text_eq_iff}
use lamdis_core.Store.{VersionRow}
use lamdis_core.Policy.Evaluate.{is_published}
use lamdis_core.Admin.Policies.{
  is_version, is_for, new_version, upsert_version, set_status, publish_rows, publish_version,
  create_policy_version, put_version, publish_policy_version, with_version, VersionBody,
  next_version, atoi,
}

-- How many rows pass the test.
abbrev pub count : (VersionRow → Bool) → List VersionRow → ℕ
count p [] = 0
count p (r ∷ rows) = if p r then suc (count p rows) else count p rows

abbrev pub is_published_for : Text → Text → VersionRow → Bool
is_published_for tenant action r = is_for tenant action r && is_published r.status

pub record IsConsistent (rows : List VersionRow) : Type 0 where
  pub unique : (t a : Text) (v : ℤ) → count (is_version t a v) rows ≤ 1
  pub single : (t a : Text) → count (is_published_for t a) rows ≤ 1

-- Creating a version
new_as : Text → Text → ℤ → VersionRow → ℕ
new_as t a v r = if is_version t a v r then 1 else 0

upsert-count :
    (tenant action : Text) (v : ℤ) (code : Text) (t a : Text) (u : ℤ) (rows : List VersionRow)
    → count (is_version t a u) (upsert_version tenant action v code rows)
      ≡ count (is_version t a u) rows
        + (if count (is_version tenant action v) rows == 0
            then new_as t a u (new_version tenant action v code)
            else 0)
unfolding upsert_version is_version new_as
upsert-count tenant action v code t a u [] = ground arith
upsert-count tenant action v code t a u (r ∷ rows) =
    ground (arith, upsert-count tenant action v code t a u rows)

upsert-published :
    (tenant action : Text) (v : ℤ) (code t a : Text) (rows : List VersionRow)
    → count (is_published_for t a) (upsert_version tenant action v code rows)
      ≤ count (is_published_for t a) rows
unfolding upsert_version is_for new_version
upsert-published tenant action v code t a [] = ground arith
upsert-published tenant action v code t a (r ∷ rows) =
    ground (arith, upsert-published tenant action v code t a rows)

pub eq_ℤ_sound : (a b : ℤ) → eq_ℤ a b ≡ true → a ≡ b
eq_ℤ_sound (pos m) (pos n) h = ap pos (ground arith)
eq_ℤ_sound (pos m) (negsuc n) h = absurd (ground arith)
eq_ℤ_sound (negsuc m) (pos n) h = absurd (ground arith)
eq_ℤ_sound (negsuc m) (negsuc n) h = ap negsuc (ground arith)

new_key :
    (tenant action : Text) (v : ℤ) (code t a : Text) (u : ℤ)
    → is_version t a u (new_version tenant action v code) ≡ true
    → (tenant ≡ t) × (action ≡ a) × (v ≡ u)
unfolding is_version new_version
new_key tenant action v code t a u h = (
  (text_eq_iff tenant t).0 (ground arith),
  (text_eq_iff action a).0 (ground arith),
  eq_ℤ_sound v u (ground arith),
)

at_most_one : (n m x : ℕ) → n ≤ 1 → x ≤ 1 → (x ≡ 0) ⊎ (n ≡ m) → n + (if m == 0 then x else 0) ≤ 1
at_most_one n m x h k (inl e) = ground arith
at_most_one n m x h k (inr e) = ground arith

new_as_bound : (t a : Text) (u : ℤ) (r : VersionRow) → new_as t a u r ≤ 1
unfolding new_as
new_as_bound t a u r = ground arith

new_or_same :
    (tenant action : Text) (v : ℤ) (code t a : Text) (u : ℤ) (rows : List VersionRow)
    → (new_as t a u (new_version tenant action v code) ≡ 0)
      ⊎ (count (is_version t a u) rows ≡ count (is_version tenant action v) rows)
new_or_same tenant action v code t a u rows =
    elim (Bool-cases (is_version t a u (new_version tenant action v code))) [
      | inl e ↦ let (p, q, s) = new_key tenant action v code t a u e in inr (rw (p, q, s) refl)
      | inr e ↦ inl (unfold new_as in rw e refl)
    ]

pub upsert_version-IsConsistent :
    (tenant action : Text) (v : ℤ) (code : Text) (rows : List VersionRow)
    → IsConsistent rows
    → IsConsistent (upsert_version tenant action v code rows)
upsert_version-IsConsistent tenant action v code rows c = record {
  unique = λ t a u. rw (upsert-count tenant action v code t a u rows) (
      at_most_one (count (is_version t a u) rows) (count (is_version tenant action v) rows) _
        (c.unique t a u) (new_as_bound t a u _) (new_or_same tenant action v code t a u rows));
  single = λ t a.
      let p : count (is_published_for t a) (upsert_version tenant action v code rows)
          ≤ count (is_published_for t a) rows =
        upsert-published tenant action v code t a rows in
      let q = c.single t a in omega arith;
}

-- Publishing a version
publish_unique :
    (tenant action : Text) (v : ℤ) (t a : Text) (u : ℤ) (rows : List VersionRow)
    → count (is_version t a u) (publish_rows tenant action v rows) ≡ count (is_version t a u) rows
unfolding publish_rows set_status is_version
publish_unique tenant action v t a u [] = refl
publish_unique tenant action v t a u (r ∷ rows) =
    ground (arith, publish_unique tenant action v t a u rows)

publish-single :
    (tenant action : Text) (v : ℤ) (rows : List VersionRow)
    → count (is_published_for tenant action) (publish_rows tenant action v rows)
      ≡ count (is_version tenant action v) rows
unfolding publish_rows set_status is_version is_for
publish-single tenant action v [] = refl
publish-single tenant action v (r ∷ rows) = ground (arith, publish-single tenant action v rows)

is_for_same :
    (tenant action t a : Text) (r : VersionRow)
    → is_for tenant action r ≡ true
    → is_for t a r ≡ (text_eq tenant t && text_eq action a)
unfolding is_for
is_for_same tenant action t a r h =
    let p : r.tenant_id ≡ tenant = (text_eq_iff r.tenant_id tenant).0 (ground arith) in
    let q : r.action_key ≡ action = (text_eq_iff r.action_key action).0 (ground arith) in
    rw (p, q) refl

publish_row-other :
    (tenant action : Text) (v : ℤ) (t a : Text) (r : VersionRow)
    → (text_eq tenant t && text_eq action a) ≡ false
    → is_published_for t a (set_status tenant action v r) ≡ is_published_for t a r
unfolding set_status is_for
publish_row-other tenant action v t a r h = elim (Bool-cases (is_for tenant action r)) [
  | inr e ↦ rw e refl
  | inl e ↦ let f : is_for t a r ≡ false = rw (is_for_same tenant action t a r e) h in ground arith
]

publish-other :
    (tenant action : Text) (v : ℤ) (t a : Text) (rows : List VersionRow)
    → (text_eq tenant t && text_eq action a) ≡ false
    → count (is_published_for t a) (publish_rows tenant action v rows)
      ≡ count (is_published_for t a) rows
unfolding publish_rows set_status is_for
publish-other tenant action v t a [] h = refl
publish-other tenant action v t a (r ∷ rows) h =
    rw (publish_row-other tenant action v t a r h, publish-other tenant action v t a rows h) refl

pub publish_rows-IsConsistent :
    (tenant action : Text) (v : ℤ) (rows : List VersionRow)
    → IsConsistent rows
    → IsConsistent (publish_rows tenant action v rows)
publish_rows-IsConsistent tenant action v rows c = record {
  unique = λ t a u. rw (publish_unique tenant action v t a u rows) (c.unique t a u);
  single = λ t a. elim (Bool-cases (text_eq tenant t && text_eq action a)) [
    | inl e ↦
        rw
          (
            ← (text_eq_iff tenant t).0 (and_true (text_eq tenant t) (text_eq action a) e).0,
            ← (text_eq_iff action a).0 (and_true (text_eq tenant t) (text_eq action a) e).1,
            publish-single tenant action v rows,
          )
          (c.unique tenant action v)
    | inr e ↦ rw (publish-other tenant action v t a rows e) (c.single t a)
  ];
}

module _ (F : Type 0) (sees : Text → Text → Bool) (compiles : Text → Option Text) where
  -- The requests that change the table, in any order, of any tenants.
  pub data Reachable : List VersionRow → Type 0 where
    start : Reachable []
    created :
        (rows : List VersionRow) (works : Bool) (tenant : Text) (body : Option VersionBody)
        → Reachable rows
        → Reachable (create_policy_version {F = F} sees compiles works tenant body rows).1
    published_version :
        (rows : List VersionRow) (works : Bool) (tenant query version_text : Text)
        → Reachable rows
        → Reachable (publish_policy_version {F = F} works tenant query version_text rows).1

  put-IsConsistent :
      (works : Bool) (tenant action : Text) (v : ℤ) (code : Text) (rows : List VersionRow)
      → IsConsistent rows
      → IsConsistent (put_version {F = F} works tenant action v code rows).1
  unfolding put_version
  put-IsConsistent true tenant action v code rows c =
      upsert_version-IsConsistent tenant action v code rows c
  put-IsConsistent false tenant action v code rows c = c

  publish_works :
      (works : Bool) (tenant action : Text) (v : ℤ) (rows : List VersionRow)
      → IsConsistent rows
      → IsConsistent (publish_version {F = F} works tenant action v rows).1
  unfolding publish_version
  publish_works true tenant action v rows c = publish_rows-IsConsistent tenant action v rows c
  publish_works false tenant action v rows c = c

  create-IsConsistent :
      (works : Bool) (tenant : Text) (body : Option VersionBody) (rows : List VersionRow)
      → IsConsistent rows
      → IsConsistent (create_policy_version {F = F} sees compiles works tenant body rows).1
  unfolding create_policy_version
  create-IsConsistent works tenant none rows c = c
  create-IsConsistent works tenant (some b) rows c =
      elim (Bool-cases (null (trim_space b.code) || null (trim_space b.action_key))) [
        | inl e ↦ rw e c
        | inr e ↦ elim (Option-cases (compiles b.code)) [
          | inr (m, f) ↦ rw (e, f) c
          | inl f ↦
              rw (e, f)
                (put-IsConsistent works tenant b.action_key
                  (next_version sees b.version tenant b.action_key rows) b.code rows c)
        ]
      ]

  publish-IsConsistent :
      (works : Bool) (tenant query version_text : Text) (rows : List VersionRow)
      → IsConsistent rows
      → IsConsistent (publish_policy_version {F = F} works tenant query version_text rows).1
  unfolding publish_policy_version with_version
  publish-IsConsistent works tenant query version_text rows c =
      elim (Bool-cases (null (trim_space query))) [
        | inl e ↦ rw e c
        | inr e ↦ elim (Bool-cases (null (trim_space version_text))) [
          | inl f ↦ rw (e, f) c
          | inr f ↦ elim (Option-cases (atoi version_text)) [
            | inl g ↦ rw (e, f, g) c
            | inr (v, g) ↦ rw (e, f, g) (publish_works works tenant (trim_space query) v rows c)
          ]
        ]
      ]

  -- Whatever versions are created and published, in whatever order and by whatever tenants: a version of
  -- an action stands once in the table, and of each tenant and action at most one is published.
  pub Reachable-IsConsistent : (rows : List VersionRow) → Reachable rows → IsConsistent rows
  Reachable-IsConsistent _ start = record {
    unique = λ t a v. omega arith;
    single = λ t a. omega arith;
  }
  Reachable-IsConsistent _ (created rows works tenant body h) =
      create-IsConsistent works tenant body rows (Reachable-IsConsistent rows h)
  Reachable-IsConsistent _ (published_version rows works tenant query version_text h) =
      publish-IsConsistent works tenant query version_text rows (Reachable-IsConsistent rows h)
