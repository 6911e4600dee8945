-- ===== src/PgText/RoundTrip.antt =====
-- A map that `to_pg` wrote, as `pg2proto` (grpc_utils.cpp) reads it.
use bb_monitor.Base.{
  ℕ, ◌≡◌, refl, sym, ap, ◌∙◌, Bool, true, false, ◌&&◌, not, some, List, [], ◌∷◌, ◌++◌, Bytes, codes,
  is_empty, arith, ◌==◌, append_assoc, append-nil, bytes_key,
}
use bb_monitor.Base.Maps.{assign}
use bb_monitor.Base.Text.{is_free_of}
use bb_monitor.PgText.{
  ltrim, rtrim, trim, cut_by, split_string2vector, remove, pg_entries, to_pg_map, add_entry,
  add_entries, pg2proto_map,
}

pub split_string2vector-free :
    (s : Bytes) (c : ℕ) → is_free_of c s ≡ true → split_string2vector s c ≡ s ∷ []
unfolding split_string2vector
split_string2vector-free [] c h = refl
split_string2vector-free (x ∷ s) c h = ground (arith, h, split_string2vector-free s c)

pub split_string2vector-append :
    (s : Bytes) (c : ℕ) (rest : Bytes)
    → is_free_of c s ≡ true
    → split_string2vector (s ++ c ∷ rest) c ≡ s ∷ split_string2vector rest c
unfolding split_string2vector
split_string2vector-append [] c rest h = ground arith
split_string2vector-append (x ∷ s) c rest h = ground (arith, h, split_string2vector-append s c rest)

pub remove-free : (c : ℕ) (s : Bytes) → is_free_of c s ≡ true → remove c s ≡ s
unfolding remove
remove-free c [] h = refl
remove-free c (x ∷ s) h = ground (arith, h, remove-free c s)

pub remove-append : (c : ℕ) (s t : Bytes) → remove c (s ++ t) ≡ remove c s ++ remove c t
unfolding remove
remove-append c [] t = refl
remove-append c (x ∷ s) t = ground (arith, remove-append c s t)

-- `=>` behind a text without `=`.
cut_by-arrow :
    (s rest : Bytes)
    → is_free_of 61 s ≡ true
    → cut_by (codes "=>") (s ++ 61 ∷ 62 ∷ rest) ≡ some (s, rest)
unfolding cut_by
cut_by-arrow [] rest h = refl
cut_by-arrow (x ∷ s) rest h = ground (arith, h, cut_by-arrow s rest)

abbrev in_quotes : Bytes → Bytes
in_quotes s = 34 ∷ (s ++ 34 ∷ [])

-- Nothing is trimmed behind a closing quote.
rtrim-quote : (s : Bytes) → rtrim (s ++ 34 ∷ []) ≡ s ++ 34 ∷ []
unfolding rtrim
rtrim-quote [] = refl
rtrim-quote (c ∷ []) = refl
rtrim-quote (c ∷ (d ∷ s)) = ground (arith, rtrim-quote (d ∷ s))

trim-in_quotes : (s : Bytes) → trim (in_quotes s) ≡ in_quotes s
unfolding ltrim
trim-in_quotes s = rtrim-quote (34 ∷ s)

trim-space_in_quotes : (s : Bytes) → trim (32 ∷ in_quotes s) ≡ in_quotes s
unfolding ltrim
trim-space_in_quotes s = rtrim-quote (34 ∷ s)

remove-in_quotes : (s : Bytes) → is_free_of 34 s ≡ true → remove 34 (in_quotes s) ≡ s
unfolding remove
remove-in_quotes s h =
    remove-append 34 s (34 ∷ []) ∙ ap (λ t. t ++ []) (remove-free 34 s h) ∙ append-nil s

-- An entry as it is written, behind a space or not.
abbrev entry_text : Bytes → Bytes → Bytes
entry_text k v = in_quotes k ++ 61 ∷ 62 ∷ in_quotes v

-- The key is not empty and has no quote, comma or equals sign, the value no quote or comma.
abbrev pub is_entry : Bytes × Bytes → Bool
is_entry (k, v) =
    not (is_empty k)
    && (is_free_of 34 k
        && (is_free_of 44 k && (is_free_of 61 k && (is_free_of 34 v && is_free_of 44 v))))

abbrev pub all_entries : List (Bytes × Bytes) → Bool
all_entries [] = true
all_entries (e ∷ m) = is_entry e && all_entries m

abbrev pub assign_all : List (Bytes × Bytes) → List (Bytes × Bytes) → List (Bytes × Bytes)
assign_all [] m = m
assign_all ((k, v) ∷ new) m = assign_all new (assign k v m)

is_free_of-snoc :
    (c x : ℕ) (s : Bytes)
    → is_free_of c s ≡ true
    → (x == c) ≡ false
    → is_free_of c (s ++ x ∷ []) ≡ true
is_free_of-snoc c x [] h k = ground (arith, k)
is_free_of-snoc c x (y ∷ s) h k = ground (arith, h, is_free_of-snoc c x s (ground (arith, h)) k)

pub is_free_of-join :
    (c : ℕ) (s t : Bytes)
    → is_free_of c s ≡ true
    → is_free_of c t ≡ true
    → is_free_of c (s ++ t) ≡ true
is_free_of-join c [] t h k = k
is_free_of-join c (y ∷ s) t h k = ground (arith, h, is_free_of-join c s t (ground (arith, h)) k)

in_quotes-free :
    (c : ℕ) (s : Bytes)
    → is_free_of c s ≡ true
    → (34 == c) ≡ false
    → is_free_of c (in_quotes s) ≡ true
in_quotes-free c s h k = ground (arith, k, is_free_of-snoc c 34 s h k)

-- In the text of an entry there is no comma.
entry_text-free : (k v : Bytes) → is_entry (k, v) ≡ true → is_free_of 44 (entry_text k v) ≡ true
entry_text-free k v h =
    is_free_of-join 44 (in_quotes k) (61 ∷ 62 ∷ in_quotes v)
      (in_quotes-free 44 k (ground (arith, h)) refl) (in_quotes-free 44 v (ground (arith, h)) refl)

-- The value of the entry behind its key, whatever stands in front.
add_entry-cut :
    (text before k v : Bytes) (m : List (Bytes × Bytes))
    → cut_by (codes "=>") text ≡ some (before, in_quotes v)
    → trim before ≡ in_quotes k
    → is_entry (k, v) ≡ true
    → add_entry text m ≡ assign k v m
add_entry-cut text before k v m e t h = ground (
  arith,
  h,
  e,
  t,
  trim-in_quotes v,
  remove-in_quotes k (ground (arith, h)),
  remove-in_quotes v (ground (arith, h)),
)

add_entry-text :
    (k v : Bytes) (m : List (Bytes × Bytes))
    → is_entry (k, v) ≡ true
    → add_entry (entry_text k v) m ≡ assign k v m
add_entry-text k v m h =
    add_entry-cut (entry_text k v) (in_quotes k) k v m
      (cut_by-arrow (in_quotes k) (in_quotes v) (in_quotes-free 61 k (ground (arith, h)) refl))
      (trim-in_quotes k) h

add_entry-space :
    (k v : Bytes) (m : List (Bytes × Bytes))
    → is_entry (k, v) ≡ true
    → add_entry (32 ∷ entry_text k v) m ≡ assign k v m
add_entry-space k v m h =
    add_entry-cut (32 ∷ entry_text k v) (32 ∷ in_quotes k) k v m
      (cut_by-arrow (32 ∷ in_quotes k) (in_quotes v) (in_quotes-free 61 k (ground (arith, h)) refl))
      (trim-space_in_quotes k) h

pg_entries-cons :
    (k v : Bytes) (m : List (Bytes × Bytes))
    → (pg_entries true ((k, v) ∷ m) ≡ entry_text k v ++ pg_entries false m)
      × (pg_entries false ((k, v) ∷ m) ≡ 44 ∷ 32 ∷ (entry_text k v ++ pg_entries false m))
pg_entries-cons k v m =
    let same : 34 ∷ (k ++ (codes "\"=>\"" ++ (v ++ 34 ∷ pg_entries false m)))
        ≡ entry_text k v ++ pg_entries false m =
      sym (
        append_assoc (in_quotes k) (61 ∷ 62 ∷ in_quotes v) (pg_entries false m)
        ∙ ap (λ t. 34 ∷ t)
            (append_assoc k (34 ∷ []) (61 ∷ 62 ∷ (in_quotes v ++ pg_entries false m)))
        ∙ ap (λ t. 34 ∷ (k ++ (codes "\"=>\"" ++ t)))
            (append_assoc v (34 ∷ []) (pg_entries false m))) in
    (same, ap (λ t. 44 ∷ 32 ∷ t) same)

-- The text of the first entry, and those behind it.
add_entries-split :
    (text k v : Bytes) (m result : List (Bytes × Bytes))
    → is_free_of 44 text ≡ true
    → ((r : List (Bytes × Bytes)) → add_entry text r ≡ assign k v r)
    → all_entries m ≡ true
    → add_entries (split_string2vector (text ++ pg_entries false m) 44) result
      ≡ assign_all ((k, v) ∷ m) result
add_entries-split text k v [] result free add h =
    ap (λ t. add_entries (split_string2vector t 44) result) (append-nil text)
    ∙ ap (λ ts. add_entries ts result) (split_string2vector-free text 44 free)
    ∙ add result
add_entries-split text k v ((j, w) ∷ m) result free add h =
    ap (λ t. add_entries (split_string2vector (text ++ t) 44) result) (pg_entries-cons j w m).1
    ∙ ap (λ ts. add_entries ts result)
        (split_string2vector-append text 44 (32 ∷ (entry_text j w ++ pg_entries false m)) free)
    ∙ ap (add_entries (split_string2vector (32 ∷ (entry_text j w ++ pg_entries false m)) 44))
        (add result)
    ∙ add_entries-split (32 ∷ entry_text j w) j w m (assign k v result)
        (entry_text-free j w (ground (arith, h))) (λ r. add_entry-space j w r (ground (arith, h)))
        (ground (arith, h))

nothing_added : (result : List (Bytes × Bytes)) → pg2proto_map [] result ≡ result
unfolding pg2proto_map split_string2vector cut_by ltrim rtrim remove
nothing_added result = refl

-- A map without entries, or with keys that are not empty and have no quote, comma or equals sign, and
-- values without quote and comma, is written by `to_pg` as a literal in single quotes, and `pg2proto`
-- reads what stands between these as the same entries, which it assigns in order.
pub pg2proto_map-to_pg_map :
    (m result : List (Bytes × Bytes))
    → all_entries m ≡ true
    → (text : Bytes) × (to_pg_map m ≡ 39 ∷ (text ++ 39 ∷ []))
      × (pg2proto_map text result ≡ assign_all m result)
unfolding pg2proto_map
pg2proto_map-to_pg_map [] result h = ([], refl, nothing_added result)
pg2proto_map-to_pg_map ((k, v) ∷ m) result h = (
  pg_entries true ((k, v) ∷ m),
  refl,
  ap (λ t. add_entries (split_string2vector t 44) result) (pg_entries-cons k v m).0
      ∙ add_entries-split (entry_text k v) k v m result (entry_text-free k v (ground (arith, h)))
          (λ r. add_entry-text k v r (ground (arith, h))) (ground (arith, h)),
)
