-- ===== src/Io/Dictionary.antt =====
-- A dictionary that meets what `Env` assumes: a list of its entries.
use mathlib.Core.List.Memᴰ.{cases_cons}
use cevent_sample.Prelude.{
  ℕ, ◌≡◌, refl, arith, Bool, Bool-cases, inl, inr, Memᴰ, true, false, Option, none, some, List, [],
  ◌∷◌, ◌==◌, if◌then◌else◌, ℤ, pos, negsuc, length,
}
use cevent_sample.Shared.{Ptr, io_fd}
use cevent_sample.Io.{Env}

abbrev eq_ℤ : ℤ → ℤ → Bool
eq_ℤ (pos a) (pos b) = a == b
eq_ℤ (pos a) (negsuc b) = false
eq_ℤ (negsuc a) (pos b) = false
eq_ℤ (negsuc a) (negsuc b) = a == b

eq_refl : (a : ℤ) → eq_ℤ a a ≡ true
eq_refl (pos n) = ground arith
eq_refl (negsuc n) = ground arith

abbrev Entries : Type 0
Entries = List (ℤ × Ptr × Ptr)

abbrev find : Entries → ℤ → Option (Ptr × Ptr)
find [] fd = none
find ((g, k, v) ∷ t) fd = if eq_ℤ g fd then some (k, v) else find t fd

abbrev delete : Entries → ℤ → Entries
delete [] fd = []
delete ((g, k, v) ∷ t) fd = if eq_ℤ g fd then delete t fd else (g, k, v) ∷ delete t fd

abbrev pairs : Entries → List (Ptr × Ptr)
pairs [] = []
pairs ((g, k, v) ∷ t) = (k, v) ∷ pairs t

pub find-delete : (t : Entries) (fd : ℤ) → find (delete t fd) fd ≡ none
find-delete [] fd = refl
find-delete ((g, k, v) ∷ t) fd = ground (arith, find-delete t fd)

pub find-add : (t : Entries) (fd : ℤ) (k v : Ptr) → find ((fd, k, v) ∷ t) fd ≡ some (k, v)
find-add t fd k v = rw (eq_refl fd)

below :
    {x a : Ptr × Ptr} {xs ys : List (Ptr × Ptr)}
    → (Memᴰ x xs → Memᴰ x ys)
    → Memᴰ x (a ∷ xs)
    → Memᴰ x (a ∷ ys)
below f m = elim (cases_cons m) [ inl here ↦ Memᴰ.head here | inr there ↦ Memᴰ.tail (f there) ]

pub pairs-delete :
    (t : Entries) (fd : ℤ) {x : Ptr × Ptr} → Memᴰ x (pairs (delete t fd)) → Memᴰ x (pairs t)
pairs-delete [] fd m = m
pairs-delete ((g, k, v) ∷ t) fd m = elim (Bool-cases (eq_ℤ g fd)) [
  | inl same ↦ Memᴰ.tail (pairs-delete t fd (simp same at m))
  | inr other ↦ below (pairs-delete t fd) (simp other at m)
]

pub find-pairs : (t : Entries) (fd : ℤ) {x : Ptr × Ptr} → find t fd ≡ some x → Memᴰ x (pairs t)
find-pairs [] fd h = absurd (ground arith)
find-pairs ((g, k, v) ∷ t) fd {x} h = elim (Bool-cases (eq_ℤ g fd)) [
  | inl same ↦ let own = simp same at h in Memᴰ.head (ground arith)
  | inr other ↦ Memᴰ.tail (find-pairs t fd (simp other at h))
]

abbrev low_bytes : Ptr → List ℕ
low_bytes (io_fd n) = n ∷ 0 ∷ 0 ∷ 0 ∷ 0 ∷ 0 ∷ 0 ∷ 0 ∷ []
low_bytes _ = 0 ∷ 0 ∷ 0 ∷ 0 ∷ 0 ∷ 0 ∷ 0 ∷ 0 ∷ []

pub length-low_bytes : (p : Ptr) → length (low_bytes p) ≡ 8
length-low_bytes (io_fd n) = refl
length-low_bytes _ = refl

abbrev pub env : Env
env = record {
  Table = Entries;
  dict_create = [];
  dict_find = find;
  dict_add = λ t fd k v. ((fd, k, v) ∷ t, true);
  dict_delete = delete;
  dict_entries = pairs;
  address = low_bytes;
  find-create = λ fd. refl;
  add-new = λ t fd k v new. refl;
  find-add_self = λ t fd k v new. find-add t fd k v;
  find-delete_self = find-delete;
  entries-create = refl;
  entries-add = λ t fd k v m. cases_cons m;
  entries-delete = pairs-delete;
  entries-find = find-pairs;
  length-address = length-low_bytes;
}
