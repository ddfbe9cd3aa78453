-- ===== src/FakeFs/Nodes/Writes.antt =====
-- What the table holds after a write (src/infra/fake_fs_datastore.py).
use honey_mind.Prelude.{
  ℕ, Text, eqb, eqb_iff, keep, Bool, true, false, not, Bool-cases, [], ◌∷◌, ◌++◌, if◌then◌else◌,
  none, some, is_some, ◌≡◌, refl, arith, inl, inr, ◌⊎◌, All, Option-cases, ◌∙◌, All-append,
  All-keep,
}
use honey_mind.FakeFs.Nodes.{Node, Table, get_node, replace, mkdir, dir_node, write_file, file_node}

get_node-append :
    (nodes : Table) (n : Node) (p : Text)
    → get_node (nodes ++ n ∷ []) p ≡ (
        if is_some (get_node nodes p)
        then get_node nodes p
        else (if eqb n.path p then some n else none))
unfolding get_node
get_node-append [] n p = refl
get_node-append (m ∷ nodes) n p = ground (arith, get_node-append nodes n p)

get_node-keep :
    (nodes : Table) (k p : Text)
    → get_node (keep (λ n. not (eqb n.path k)) nodes) p
      ≡ (if eqb k p then none else get_node nodes p)
unfolding get_node
get_node-keep [] k p = ground arith
get_node-keep (m ∷ nodes) k p =
    ground (arith, get_node-keep nodes k p, eqb_iff m.path k, eqb_iff m.path p, eqb_iff k p)

-- `INSERT OR REPLACE` sets the node of its path and no other.
pub get_node-replace :
    (nodes : Table) (n : Node) (p : Text)
    → get_node (replace nodes n) p ≡ (if eqb n.path p then some n else get_node nodes p)
unfolding replace
get_node-replace nodes n p =
    let kept = keep (λ m. not (eqb m.path n.path)) nodes in
    ground (arith, get_node-append kept n p, get_node-keep nodes n.path p)

-- `write_file` leaves a file with the content under its path, whatever was there, and changes the
-- node of no other path.
pub write_file-get_node :
    (nodes : Table) (path content : Text) (now : ℕ) (p : Text)
    → get_node (write_file nodes path content now) p
      ≡ (if eqb path p then some (file_node path content now) else get_node nodes p)
unfolding write_file
write_file-get_node nodes path content now p = get_node-replace nodes (file_node path content now) p

-- `mkdir` raises exactly where the path has a node; otherwise it adds a folder there and changes
-- the node of no other path.
pub get_node-mkdir :
    (nodes : Table) (path : Text) (now : ℕ) (p : Text)
    → (mkdir nodes path now ≡ none) × (is_some (get_node nodes path) ≡ true)
      ⊎ ((nodes' : Table) × (mkdir nodes path now ≡ some nodes')
          × (get_node nodes path ≡ none)
          × (get_node nodes' p
              ≡ (if eqb path p then some (dir_node path now) else get_node nodes p)))
unfolding mkdir
get_node-mkdir nodes path now p = elim (Option-cases (get_node nodes path)) [
  | inl e ↦ inr (
    nodes ++ dir_node path now ∷ [],
    rw e,
    e,
    ground (arith, get_node-append nodes (dir_node path now) p, eqb_iff path p),
  )
  | inr (n, e) ↦ inl (rw e, rw e refl)
]

-- The primary key: no two rows have one path.
abbrev pub Absent : Text → Table → Type 0
Absent p = All (λ n. eqb n.path p ≡ false)

abbrev pub DistinctPaths : Table → Type 0
DistinctPaths [] = Unit
DistinctPaths (n ∷ nodes) = Absent n.path nodes × DistinctPaths nodes

eqb-flip : (s t : Text) → eqb s t ≡ eqb t s
eqb-flip s t = ground (arith, eqb_iff s t, eqb_iff t s)

Distinct-append :
    (nodes : Table) (n : Node)
    → DistinctPaths nodes
    → Absent n.path nodes
    → DistinctPaths (nodes ++ n ∷ [])
Distinct-append [] n d h = (tt, tt)
Distinct-append (m ∷ nodes) n (a, d) (hm, h) =
    (All-append _ nodes (n ∷ []) a (eqb-flip n.path m.path ∙ hm, tt), Distinct-append nodes n d h)

Distinct-keep :
    (p : Node → Bool) (nodes : Table) → DistinctPaths nodes → DistinctPaths (keep p nodes)
Distinct-keep p [] d = tt
Distinct-keep p (m ∷ nodes) (a, d) = elim (Bool-cases (p m)) [
  | inl h ↦ rw h (All-keep _ p nodes a, Distinct-keep p nodes d)
  | inr h ↦ rw h (Distinct-keep p nodes d)
]

Absent-keep : (k : Text) (nodes : Table) → Absent k (keep (λ n. not (eqb n.path k)) nodes)
Absent-keep k [] = tt
Absent-keep k (m ∷ nodes) = elim (Bool-cases (eqb m.path k)) [
  | inl h ↦ rw h (Absent-keep k nodes)
  | inr h ↦ rw h (h, Absent-keep k nodes)
]

get_node-Absent : (k : Text) (nodes : Table) → get_node nodes k ≡ none → Absent k nodes
unfolding get_node
get_node-Absent k [] h = tt
get_node-Absent k (m ∷ nodes) h = elim (Bool-cases (eqb m.path k)) [
  | inl e ↦ ground arith
  | inr e ↦ (e, get_node-Absent k nodes (ground arith))
]

mkdir-DistinctPaths :
    (nodes nodes' : Table) (path : Text) (now : ℕ)
    → DistinctPaths nodes
    → mkdir nodes path now ≡ some nodes'
    → DistinctPaths nodes'
unfolding mkdir dir_node
mkdir-DistinctPaths nodes nodes' path now d made = elim (Option-cases (get_node nodes path)) [
  | inl e ↦
      let same : nodes' ≡ nodes ++ dir_node path now ∷ [] = ground arith in
      rw same (Distinct-append nodes (dir_node path now) d (get_node-Absent path nodes e))
  | inr (n, e) ↦ absurd (ground arith)
]

-- Every write keeps the paths distinct: a file is replaced, and a folder is only made where there
-- is nothing.
pub writes-DistinctPaths :
    (nodes : Table) (path content : Text) (now : ℕ)
    → DistinctPaths nodes
    → DistinctPaths (write_file nodes path content now)
      × ((nodes' : Table) → mkdir nodes path now ≡ some nodes' → DistinctPaths nodes')
unfolding write_file replace file_node
writes-DistinctPaths nodes path content now d = (
  Distinct-append _ (file_node path content now) (Distinct-keep _ nodes d) (Absent-keep path nodes),
  λ nodes' made. mkdir-DistinctPaths nodes nodes' path now d made,
)
