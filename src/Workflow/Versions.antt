-- ===== src/Workflow/Versions.antt =====
-- `snapshot_workflow_version`, over the table `workflow_versions`.
use secu_scan.Prelude.{
  ℕ, ◌+◌, max, ◌≡◌, refl, sym, ap, subst, ◌⊎◌, inr, Bool, true, false, Option, none, some, List, [],
  ◌∷◌, ◌++◌, arith, if◌then◌else◌, length, Text, text_eq, text_eq_iff, or_default,
}
use mathlib.Core.List.{append-nil}

-- What `definition_json` holds; `steps` is the text of the steps.
pub record Definition : Type 0 where
  pub name : Text
  pub schedule_seconds : Option ℕ
  pub schedule_timezone : Option Text
  pub enabled : Bool
  pub steps : Text

pub record Version : Type 0 where
  pub workflow_id : Text
  pub version_number : ℕ
  pub definition : Definition
  pub created_by : Text

-- `SELECT MAX(version_number) … WHERE workflow_id = ?`, `none` where no row matches
unfoldable pub max_version : Text → List Version → Option ℕ
max_version workflow_id [] = none
max_version workflow_id (v ∷ vs) =
    let rest = max_version workflow_id vs in
    if text_eq workflow_id v.workflow_id
    then some (max v.version_number (or_default 0 rest))
    else rest

-- `snapshot_workflow_version`: the version, and the table with its row appended
unfoldable pub snapshot_workflow_version :
    Text → Definition → Text → List Version → Version × List Version
snapshot_workflow_version workflow_id definition created_by vs =
    let version : Version = record {
      workflow_id = workflow_id;
      version_number = or_default 0 (max_version workflow_id vs) + 1;
      definition = definition;
      created_by = created_by;
    } in
    (version, vs ++ version ∷ [])

-- The versions that a sequence of snapshots adds to the table.
unfoldable pub snapshots : List (Text × Definition × Text) → List Version → List Version
snapshots [] vs = vs
snapshots ((workflow_id, definition, created_by) ∷ rest) vs =
    snapshots rest (snapshot_workflow_version workflow_id definition created_by vs).1

-- The version numbers of one workflow, in the order of the table.
abbrev pub numbers : Text → List Version → List ℕ
numbers w [] = []
numbers w (v ∷ vs) =
    let rest = numbers w vs in if text_eq w v.workflow_id then v.version_number ∷ rest else rest

-- `n`, `n + 1`, …
abbrev pub Counts : ℕ → List ℕ → Type 0
Counts n [] = Unit {0}
Counts n (x ∷ xs) = (x ≡ n) × Counts (n + 1) xs

numbers-append :
    (w : Text) (vs : List Version) (v : Version)
    → numbers w (vs ++ v ∷ [])
      ≡ numbers w vs ++ (if text_eq w v.workflow_id then v.version_number ∷ [] else [])
numbers-append w [] v = ground arith
numbers-append w (x ∷ vs) v = ground (arith, numbers-append w vs v)

Counts-append : (n m : ℕ) (xs : List ℕ) → Counts n xs → m ≡ n + length xs → Counts n (xs ++ m ∷ [])
Counts-append n m [] h e = (omega arith, tt)
Counts-append n m (x ∷ xs) h e = (h.0, Counts-append (n + 1) m xs h.1 (omega arith))

-- The greatest number is the last of `n`, `n + 1`, …, or 0 where there is none.
abbrev Greatest : Text → ℕ → List Version → Type 0
Greatest w n vs =
    (or_default 0 (max_version w vs) + 1 ≡ n + length (numbers w vs))
    ⊎ ((length (numbers w vs) ≡ 0) × (or_default 0 (max_version w vs) ≡ 0))

max_version-Greatest :
    (w : Text) (n : ℕ) (vs : List Version) → Counts n (numbers w vs) → Greatest w n vs
unfolding max_version
max_version-Greatest w n [] h = inr (refl, refl)
max_version-Greatest w n (v ∷ vs) h =
    split (max_version-Greatest w (n + 1) vs) (max_version-Greatest w n vs)
      (text_eq w v.workflow_id) refl h
  where
    split :
        (Counts (n + 1) (numbers w vs) → Greatest w (n + 1) vs)
        → (Counts n (numbers w vs) → Greatest w n vs)
        → (b : Bool) → text_eq w v.workflow_id ≡ b
        → Counts n (if b then v.version_number ∷ numbers w vs else numbers w vs)
        → Greatest w n (v ∷ vs)
    split below same true q h = rw q (ground (arith, below h.1, h.0))
    split below same false q h = rw q (same h)

snapshot-Counts :
    (w workflow_id : Text) (definition : Definition) (created_by : Text) (vs : List Version)
    → Counts 1 (numbers w vs)
    → Counts 1 (numbers w (snapshot_workflow_version workflow_id definition created_by vs).1)
unfolding snapshot_workflow_version
snapshot-Counts w workflow_id definition created_by vs h =
    subst (Counts 1) (sym (numbers-append w vs _)) (split (text_eq w workflow_id) refl)
  where
    next : ℕ
    next = or_default 0 (max_version workflow_id vs) + 1

    split :
        (b : Bool)
        → text_eq w workflow_id ≡ b
        → Counts 1 (numbers w vs ++ (if b then next ∷ [] else []))
    split false q = rw (append-nil (numbers w vs)) h
    split true q = Counts-append 1 next (numbers w vs) h (
        ground (
          arith,
          max_version-Greatest w 1 vs h,
          ap (λ i. or_default 0 (max_version i vs)) ((text_eq_iff w workflow_id).0 q),
        ))

snapshots-Counts_from :
    (w : Text) (calls : List (Text × Definition × Text)) (vs : List Version)
    → Counts 1 (numbers w vs)
    → Counts 1 (numbers w (snapshots calls vs))
unfolding snapshots
snapshots-Counts_from w [] vs h = h
snapshots-Counts_from w ((workflow_id, definition, created_by) ∷ rest) vs h =
    snapshots-Counts_from w rest (snapshot_workflow_version workflow_id definition created_by vs).1
      (snapshot-Counts w workflow_id definition created_by vs h)

-- After any snapshots of any workflows from the empty table, the versions of each workflow are numbered
-- 1, 2, 3 and so on in the order in which they were made.
pub snapshots-Counts :
    (w : Text) (calls : List (Text × Definition × Text)) → Counts 1 (numbers w (snapshots calls []))
snapshots-Counts w calls = snapshots-Counts_from w calls [] tt
