-- ===== src/Fs/Workdir/Laws.antt =====
-- Looking up a name in a directory after a change.
use tig.Prelude.{
  ℕ, ltb, ◌≤◌, Bytes, Text, ◌≡◌, refl, ap, ◌==◌, eq_iff, eq_refl, Bool-cases, none, some, inl, inr,
  if◌then◌else◌, ok, arith,
}
use tig.Fs.Workdir.{
  Node, Entries, Os, depth, depth_node, find, set, write, make_executable, create_dir,
  create_symlink, with_executable,
}

pub find-set :
    (n m : Text) (x : Node) (es : Entries)
    → find m (set n x es) ≡ (if n == m then some x else find m es)
unfolding find set
find-set n m x Entries.nil = refl
find-set n m x (Entries.entry k y es) =
    ground (arith, eq_iff n m, eq_iff k n, eq_iff k m, find-set n m x es)

pub set-set : (n : Text) (x y : Node) (es : Entries) → set n y (set n x es) ≡ set n y es
unfolding set
set-set n x y Entries.nil = rw (eq_refl n) refl
set-set n x y (Entries.entry k z es) = ground (arith, eq_refl n, eq_iff k n, set-set n x y es)

abbrev pub append : Entries → Entries → Entries
append Entries.nil d = d
append (Entries.entry n x es) d = Entries.entry n x (append es d)

pub append-nil : (es : Entries) → append es Entries.nil ≡ es
append-nil Entries.nil = refl
append-nil (Entries.entry n x es) = ap (Entries.entry n x) (append-nil es)

pub append_assoc : (a b c : Entries) → append (append a b) c ≡ append a (append b c)
append_assoc Entries.nil b c = refl
append_assoc (Entries.entry n x a) b c = ap (Entries.entry n x) (append_assoc a b c)

pub set-new :
    (n : Text) (x : Node) (es : Entries)
    → find n es ≡ none
    → set n x es ≡ append es (Entries.entry n x Entries.nil)
unfolding find set
set-new n x Entries.nil h = refl
set-new n x (Entries.entry k y es) h = ground (arith, h, set-new n x es)

-- No name of the second directory is in the first.
abbrev pub AllAbsent : Entries → Entries → Type 0
AllAbsent d Entries.nil = Unit
AllAbsent d (Entries.entry n _ es) = (find n d ≡ none) × AllAbsent d es

pub AllAbsent-nil : (es : Entries) → AllAbsent Entries.nil es
unfolding find
AllAbsent-nil Entries.nil = tt
AllAbsent-nil (Entries.entry n x es) = (refl, AllAbsent-nil es)

pub AllAbsent-set :
    (n : Text) (x : Node) (d es : Entries)
    → find n es ≡ none
    → AllAbsent d es
    → AllAbsent (set n x d) es
unfolding find
AllAbsent-set n x d Entries.nil f a = tt
AllAbsent-set n x d (Entries.entry k y es) f (b, a) = (
  ground (arith, find-set n k x d, eq_iff n k, eq_refl n),
  AllAbsent-set n x d es (ground arith) a,
)

pub write-new :
    (os : Os) (n : Text) (bytes : Bytes) (d : Entries)
    → find n d ≡ none
    → write os n bytes d ≡ ok (set n (Node.file os.new_mode bytes) d)
unfolding write
write-new os n bytes d h = rw (h) refl

pub create_dir-new :
    (n : Text) (d : Entries)
    → find n d ≡ none
    → create_dir n d ≡ ok (set n (Node.dir Entries.nil) d)
unfolding create_dir
create_dir-new n d h = rw (h) refl

pub create_symlink-new :
    (n : Text) (t : Bytes) (d : Entries)
    → find n d ≡ none
    → create_symlink n t d ≡ ok (set n (Node.symlink t) d)
unfolding create_symlink
create_symlink-new n t d h = rw (h) refl

pub make_executable-set :
    (n : Text) (mode : ℕ) (bytes : Bytes) (d : Entries)
    → make_executable n (set n (Node.file mode bytes) d)
      ≡ set n (Node.file (with_executable mode) bytes) d
unfolding make_executable
make_executable-set n mode bytes d =
    rw (find-set n n (Node.file mode bytes) d, eq_refl n)
      (set-set n (Node.file mode bytes) (Node.file (with_executable mode) bytes) d)

pub depth-entry :
    (n : Text) (x : Node) (es : Entries) {k : ℕ}
    → depth (Entries.entry n x es) ≤ k
    → (depth_node x ≤ k) × (depth es ≤ k)
unfolding depth
depth-entry n x es h = elim (Bool-cases (ltb (depth es) (depth_node x))) [
  | inl b ↦ (ground arith, ground arith)
  | inr b ↦ (ground arith, ground arith)
]
