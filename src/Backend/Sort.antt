-- ===== src/Backend/Sort.antt =====
-- An insertion sort that meets what is documented of `sort_unstable_by_key`, for runs.
use rapidlog.Prelude.{
  ℕ, ◌≤◌, refl, List, [], ◌∷◌, leb, le→leb, lt→leb_false, le_or_lt, inl, inr, All, Permᴰ, Permᴰ,
  if◌then◌else◌, arith,
}
use rapidlog.Backend.Defs.{Decoded}
use rapidlog.Backend.Order.{IsAscending, IsSort}

unfoldable pub insert : Decoded → List Decoded → List Decoded
insert d [] = d ∷ []
insert d (e ∷ es) = if leb d.0.timestamp_ns e.0.timestamp_ns then d ∷ e ∷ es else e ∷ insert d es

unfoldable pub insertion_sort : List Decoded → List Decoded
unfolding insert
insertion_sort [] = []
insertion_sort (d ∷ ds) = insert d (insertion_sort ds)

perm_self : (ds : List Decoded) → Permᴰ ds ds
perm_self [] = Permᴰ.nil
perm_self (d ∷ ds) = Permᴰ.cons refl (perm_self ds)

insert_perm : (d : Decoded) (es : List Decoded) → Permᴰ (d ∷ es) (insert d es)
unfolding insert
insert_perm d [] = perm_self (d ∷ [])
insert_perm d (e ∷ es) = elim (le_or_lt d.0.timestamp_ns e.0.timestamp_ns) [
  | inl le ↦ rw (le→leb d.0.timestamp_ns e.0.timestamp_ns le) (perm_self (d ∷ e ∷ es))
  | inr lt ↦
      rw (lt→leb_false d.0.timestamp_ns e.0.timestamp_ns lt)
        (Permᴰ.trans (Permᴰ.swap refl refl) (Permᴰ.cons refl (insert_perm d es)))
]

sort_perm : (ds : List Decoded) → Permᴰ ds (insertion_sort ds)
unfolding insertion_sort
sort_perm [] = Permᴰ.nil
sort_perm (d ∷ ds) =
    Permᴰ.trans (Permᴰ.cons refl (sort_perm ds)) (insert_perm d (insertion_sort ds))

abbrev IsLater : ℕ → List Decoded → Type 0
IsLater t = All (λ (e : Decoded). t ≤ e.0.timestamp_ns)

IsLater-mono : (s t : ℕ) (es : List Decoded) → s ≤ t → IsLater t es → IsLater s es
IsLater-mono s t [] le h = tt
IsLater-mono s t (e ∷ es) le h = (omega (arith, h.0), IsLater-mono s t es le h.1)

insert-IsLater :
    (t : ℕ) (d : Decoded) (es : List Decoded)
    → t ≤ d.0.timestamp_ns
    → IsLater t es
    → IsLater t (insert d es)
unfolding insert
insert-IsLater t d [] le h = (le, tt)
insert-IsLater t d (e ∷ es) le h = elim (le_or_lt d.0.timestamp_ns e.0.timestamp_ns) [
  | inl l ↦ rw (le→leb d.0.timestamp_ns e.0.timestamp_ns l) (le, h)
  | inr l ↦
      rw (lt→leb_false d.0.timestamp_ns e.0.timestamp_ns l) (h.0, insert-IsLater t d es le h.1)
]

insert-IsAscending : (d : Decoded) (es : List Decoded) → IsAscending es → IsAscending (insert d es)
unfolding insert
insert-IsAscending d [] h = (tt, tt)
insert-IsAscending d (e ∷ es) h = elim (le_or_lt d.0.timestamp_ns e.0.timestamp_ns) [
  | inl l ↦
      rw (le→leb d.0.timestamp_ns e.0.timestamp_ns l)
        ((l, IsLater-mono d.0.timestamp_ns e.0.timestamp_ns es l h.0), h)
  | inr l ↦
      rw (lt→leb_false d.0.timestamp_ns e.0.timestamp_ns l)
        (insert-IsLater e.0.timestamp_ns d es (omega arith) h.0, insert-IsAscending d es h.1)
]

sort-IsAscending : (ds : List Decoded) → IsAscending (insertion_sort ds)
unfolding insertion_sort
sort-IsAscending [] = tt
sort-IsAscending (d ∷ ds) = insert-IsAscending d (insertion_sort ds) (sort-IsAscending ds)

pub insertion_sort-IsSort : IsSort insertion_sort
insertion_sort-IsSort = record { permuted = sort_perm; ascending = sort-IsAscending }
