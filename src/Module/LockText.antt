-- ===== src/Module/LockText.antt =====
-- internal/module/lock.go: what `SaveLock` writes, `LoadLock` reads back.
use shellf.Prelude.{
  ℕ, suc, Bool, true, false, ◌||◌, List, [], ◌∷◌, ◌++◌, Option, none, some, Str, str, str_eq,
  str_eq_iff, ◌==◌, any, has_prefix, is_empty, is_space, trim_left, trim_right, trim_space, Map,
  lookup, insert, keys, lookup-In, In-lookup, lookup-insert_same, lookup-insert_other, sort_strings,
  In-sort_strings, In, All, ◌⊎◌, inl, inr, ◌≡◌, ◌≢◌, refl, sym, ap, ap₂, ◌∙◌, subst, arith,
  Bool-cases,
}
use shellf.Lang.ShellRules.{split_lines, split_spaces, drop_empty, words, to_first}
use shellf.Module.{Entry, ModuleError}
use shellf.Module.LockFile.{
  add_line, load_lines, parse_lock, lock_header, entry_or_zero, entry_line, entry_lines, lock_text,
}

-- A text that is one field of a line: not empty, and no white space.
abbrev pub IsWord : Str → Type 0
IsWord w = (is_empty w ≡ false) × (any is_space w ≡ false)

-- The key, which no comment sign begins, and the fields of an entry are words.
abbrev pub GoodLine : Str → Entry → Type 0
GoodLine k e = IsWord k × (has_prefix k (str "#") ≡ false) × IsWord e.sha × IsWord e.hash

or_false : (a b : Bool) → (a || b) ≡ false → (a ≡ false) × (b ≡ false)
or_false false b h = (refl, h)
or_false true b h = cc

any_append : (p : ℕ → Bool) (s t : Str) → any p s ≡ false → any p t ≡ false → any p (s ++ t) ≡ false
any_append p [] t h g = g
any_append p (c ∷ s) t h g =
    ap₂ (λ a b. a || b) (or_false (p c) (any p s) h).0
      (any_append p s t (or_false (p c) (any p s) h).1 g)

-- A break ends a line.
split_lines-break :
    (s t : Str)
    → any (λ c. c == b'\n') s ≡ false
    → split_lines (s ++ (b'\n' ∷ t)) ≡ s ∷ split_lines t
unfolding split_lines
split_lines-break [] t h = refl
split_lines-break (c ∷ s) t h =
    rw (or_false (c == b'\n') (any (λ d. d == b'\n') s) h).0
      (ap (λ z. to_first c z) (split_lines-break s t (or_false (c == b'\n') _ h).1))

-- A blank ends a word.
split_spaces-blank :
    (s t : Str) → any is_space s ≡ false → split_spaces (s ++ (b' ' ∷ t)) ≡ s ∷ split_spaces t
unfolding split_spaces
split_spaces-blank [] t h = refl
split_spaces-blank (c ∷ s) t h =
    rw (or_false (is_space c) (any is_space s) h).0
      (ap (λ z. to_first c z) (split_spaces-blank s t (or_false (is_space c) _ h).1))

split_spaces-word : (s : Str) → any is_space s ≡ false → split_spaces s ≡ s ∷ []
unfolding split_spaces
split_spaces-word [] h = refl
split_spaces-word (c ∷ s) h =
    rw (or_false (is_space c) (any is_space s) h).0
      (ap (λ z. to_first c z) (split_spaces-word s (or_false (is_space c) _ h).1))

drop_empty-word :
    (w : Str) (ws : List Str) → is_empty w ≡ false → drop_empty (w ∷ ws) ≡ w ∷ drop_empty ws
unfolding drop_empty
drop_empty-word w ws h = rw h refl

-- The fields of the line of an entry.
words-entry_line :
    (k : Str) (e : Entry) → GoodLine k e → words (entry_line k e) ≡ k ∷ e.sha ∷ e.hash ∷ []
unfolding words drop_empty
words-entry_line k e ((k_there, k_word), _, (s_there, s_word), (h_there, h_word)) =
    ap drop_empty (
      split_spaces-blank k _ k_word
      ∙ ap (λ z. k ∷ z)
          (split_spaces-blank e.sha _ s_word
            ∙ ap (λ z. e.sha ∷ z) (split_spaces-word e.hash h_word)))
    ∙ drop_empty-word k (e.sha ∷ e.hash ∷ []) k_there
    ∙ ap (λ z. k ∷ z) (drop_empty-word e.sha (e.hash ∷ []) s_there)
    ∙ ap (λ z. k ∷ e.sha ∷ z) (drop_empty-word e.hash [] h_there ∙ ap (λ z. e.hash ∷ z) empty)
  where
    empty : drop_empty [] ≡ []
    empty = refl

-- A text that ends with something else than white space.
Ended : Str → Type 0
Ended t = (is_empty t ≡ false) × (trim_right is_space t ≡ t)

Ended-cons : (c : ℕ) (t : Str) → Ended t → Ended (c ∷ t)
unfolding Ended trim_right
Ended-cons c [] (there, e) = cc
Ended-cons c (d ∷ t) (there, e) = (refl, rw e refl)

Ended-append : (s t : Str) → Ended t → Ended (s ++ t)
Ended-append [] t e = e
Ended-append (c ∷ s) t e = Ended-cons c (s ++ t) (Ended-append s t e)

Ended-word : (w : Str) → IsWord w → Ended w
unfolding Ended trim_right
Ended-word [] (there, h) = cc
Ended-word (c ∷ []) (there, h) = (refl, rw (or_false (is_space c) false h).0 refl)
Ended-word (c ∷ d ∷ s) (there, h) =
    (refl, rw ((Ended-word (d ∷ s) (refl, (or_false (is_space c) _ h).1)).1) refl)

trim_left-word : (w t : Str) → IsWord w → trim_left is_space (w ++ t) ≡ w ++ t
unfolding trim_left
trim_left-word [] t (there, h) = cc
trim_left-word (c ∷ w) t (there, h) = rw (or_false (is_space c) (any is_space w) h).0 refl

-- The line of an entry has no margins.
trim_space-entry_line :
    (k : Str) (e : Entry) → GoodLine k e → trim_space (entry_line k e) ≡ entry_line k e
unfolding trim_space Ended
trim_space-entry_line k e (k_word, _, s_word, h_word) =
    ap (trim_left is_space)
      (Ended-append k _
        (Ended-cons b' ' _ (Ended-append e.sha _ (Ended-cons b' ' _ (Ended-word e.hash h_word))))).1
    ∙ trim_left-word k _ k_word

no_break : (s : Str) → any is_space s ≡ false → any (λ c. c == b'\n') s ≡ false
no_break [] h = refl
no_break (c ∷ s) h =
    ap₂ (λ a b. a || b) (no_space c (or_false (is_space c) _ h).0)
      (no_break s (or_false (is_space c) _ h).1)
  where
    no_space : (c : ℕ) → is_space c ≡ false → (c == b'\n') ≡ false
    no_space c h = ground arith

entry_line-no_break :
    (k : Str) (e : Entry) → GoodLine k e → any (λ c. c == b'\n') (entry_line k e) ≡ false
entry_line-no_break k e (k_word, _, s_word, h_word) =
    any_append _ k _ (no_break k k_word.1)
      (any_append _ e.sha _ (no_break e.sha s_word.1) (no_break e.hash h_word.1))

no_comment :
    (c : ℕ) (k t : Str)
    → has_prefix (c ∷ k) (str "#") ≡ false
    → has_prefix (c ∷ (k ++ t)) (str "#") ≡ false
unfolding has_prefix
no_comment c k t h = h

-- The line of an entry adds it.
add_line-entry_line :
    (i : ℕ) (k : Str) (e : Entry) (lock : Map Entry)
    → GoodLine k e
    → add_line i (entry_line k e) lock ≡ inl (insert k e lock)
unfolding add_line
add_line-entry_line i [] e lock g = cc
add_line-entry_line i (c ∷ k) e lock g =
    rw (no_comment c k _ g.1) (rw (words-entry_line (c ∷ k) e g) refl)

-- What the lines of the entries of `lock` add to `acc`.
add_entries : List Str → Map Entry → Map Entry → Map Entry
add_entries [] lock acc = acc
add_entries (k ∷ ks) lock acc = add_entries ks lock (insert k (entry_or_zero (lookup k lock)) acc)

abbrev GoodKey : Map Entry → Str → Type 0
GoodKey lock k = GoodLine k (entry_or_zero (lookup k lock))

-- A turn that reads the line `line'` goes on with what it added.
load_lines-added :
    (i : ℕ) (line line' : Str) (lines : List Str) (acc acc' : Map Entry)
    → trim_space line ≡ line'
    → add_line i line' acc ≡ inl acc'
    → load_lines i (line ∷ lines) acc ≡ load_lines (suc i) lines acc'
unfolding load_lines
load_lines-added i line line' lines acc acc' e h =
    ap
      (λ r. elim r as (λ _. Map Entry ⊎ ModuleError) [
        | inl a ↦ load_lines (suc i) lines a
        | inr x ↦ inr x
      ])
      (ap (λ z. add_line i z acc) e ∙ h)

add_line-empty : (i : ℕ) (acc : Map Entry) → add_line i [] acc ≡ inl acc
unfolding add_line
add_line-empty i acc = refl

trim_space-empty : trim_space [] ≡ []
unfolding trim_space trim_left trim_right
trim_space-empty = refl

load_lines-empty : (i : ℕ) (acc : Map Entry) → load_lines i ([] ∷ []) acc ≡ inl acc
unfolding load_lines
load_lines-empty i acc = load_lines-added i [] [] [] acc acc trim_space-empty (add_line-empty i acc)

split_lines-empty : split_lines [] ≡ [] ∷ []
unfolding split_lines
split_lines-empty = refl

load_lines-entry_lines :
    (i : ℕ) (ks : List Str) (lock acc : Map Entry)
    → All (GoodKey lock) ks
    → load_lines i (split_lines (entry_lines ks lock)) acc ≡ inl (add_entries ks lock acc)
unfolding entry_lines add_entries
load_lines-entry_lines i [] lock acc g =
    ap (λ z. load_lines i z acc) split_lines-empty ∙ load_lines-empty i acc
load_lines-entry_lines i (k ∷ ks) lock acc (g, gs) =
    ap (λ z. load_lines i z acc)
      (split_lines-break (entry_line k e) (entry_lines ks lock) (entry_line-no_break k e g))
    ∙ load_lines-added i (entry_line k e) (entry_line k e) (split_lines (entry_lines ks lock)) acc
        (insert k e acc) (trim_space-entry_line k e g) (add_line-entry_line i k e acc g)
    ∙ load_lines-entry_lines (suc i) ks lock (insert k e acc) gs
  where
    e : Entry
    e = entry_or_zero (lookup k lock)

-- An entry of the lock that was added stays.
add_entries-kept :
    (ks : List Str) (lock acc : Map Entry) (j : Str) (e : Entry)
    → lookup j lock ≡ some e
    → lookup j acc ≡ some e
    → lookup j (add_entries ks lock acc) ≡ some e
unfolding add_entries
add_entries-kept [] lock acc j e h g = g
add_entries-kept (k ∷ ks) lock acc j e h g =
    add_entries-kept ks lock _ j e h (elim (Bool-cases (str_eq j k)) [
      | inl same ↦ at_key ((str_eq_iff j k).0 same)
      | inr other ↦ lookup-insert_other k j _ acc (λ q. differ q other) ∙ g
    ])
  where
    at_key : j ≡ k → lookup j (insert k (entry_or_zero (lookup k lock)) acc) ≡ some e
    at_key q =
        subst (λ i. lookup j (insert i (entry_or_zero (lookup i lock)) acc) ≡ some e) q
          (lookup-insert_same j _ acc ∙ ap (λ r. some (entry_or_zero r)) h)

    differ : j ≡ k → str_eq j k ≢ false
    differ q o = true_false (sym ((str_eq_iff j k).1 q) ∙ o)
      where
        true_false : true ≢ false
        true_false z = cc

add_entries-added :
    (ks : List Str) (lock acc : Map Entry) (j : Str) (e : Entry)
    → lookup j lock ≡ some e
    → In j ks
    → lookup j (add_entries ks lock acc) ≡ some e
unfolding add_entries
add_entries-added [] lock acc j e h m = elim m [ ]
add_entries-added (k ∷ ks) lock acc j e h (inl q) = add_entries-kept ks lock _ j e h (
    subst (λ i. lookup j (insert i (entry_or_zero (lookup i lock)) acc) ≡ some e) q
      (lookup-insert_same j _ acc ∙ ap (λ r. some (entry_or_zero r)) h))
add_entries-added (k ∷ ks) lock acc j e h (inr m) = add_entries-added ks lock _ j e h m

-- What is not among the keys is not added.
add_entries-other :
    (ks : List Str) (lock acc : Map Entry) (j : Str)
    → ¬ In j ks
    → lookup j (add_entries ks lock acc) ≡ lookup j acc
unfolding add_entries
add_entries-other [] lock acc j h = refl
add_entries-other (k ∷ ks) lock acc j h =
    add_entries-other ks lock _ j (λ m. h (inr m)) ∙ lookup-insert_other k j _ acc (λ q. h (inl q))

header-no_break : any (λ c. c == b'\n') lock_header ≡ false
header-no_break = refl

trim_space-header : trim_space lock_header ≡ lock_header
unfolding trim_space trim_left trim_right
trim_space-header = refl

add_line-header : (i : ℕ) (acc : Map Entry) → add_line i lock_header acc ≡ inl acc
unfolding add_line has_prefix
add_line-header i acc = refl

lookup_empty : (k : Str) → lookup {V = Entry} k [] ≡ none
unfolding lookup
lookup_empty k = refl

-- The keys in the order of the file.
abbrev sorted_keys : Map Entry → List Str
sorted_keys lock = sort_strings (keys lock)

parse_lock-entries :
    (lock : Map Entry)
    → All (GoodKey lock) (sorted_keys lock)
    → parse_lock (lock_text lock) ≡ inl (add_entries (sorted_keys lock) lock [])
unfolding parse_lock lock_text
parse_lock-entries lock g =
    ap (λ z. load_lines 1 z [])
      (split_lines-break lock_header (entry_lines (sorted_keys lock) lock) header-no_break)
    ∙ load_lines-added 1 lock_header lock_header (split_lines (entry_lines (sorted_keys lock) lock))
        [] [] trim_space-header (add_line-header 1 [])
    ∙ load_lines-entry_lines 2 (sorted_keys lock) lock [] g

all_of : {A : Type 0} (P : A → Type 0) (xs : List A) → ((x : A) → In x xs → P x) → All P xs
all_of P [] f = tt
all_of P (x ∷ xs) f = (f x (inl refl), all_of P xs (λ y m. f y (inr m)))

-- A lock each of whose entries can stand on a line: the fields are words, and no key begins with `#`.
unfoldable pub Storable : Map Entry → Type 0
Storable lock = (k : Str) → In k (keys lock) → GoodLine k (entry_or_zero (lookup k lock))

-- Every lock each of whose fields is a word without white space, and none of whose keys begins with `#`,
-- is read back from the text that `SaveLock` writes: `LoadLock` accepts it, and finds for each key what
-- the lock has for it.
pub parse_lock-lock_text :
    (lock : Map Entry)
    → Storable lock
    → (lock' : Map Entry) × (parse_lock (lock_text lock) ≡ inl lock')
      × ((k : Str) → lookup k lock' ≡ lookup k lock)
unfolding Storable
parse_lock-lock_text lock good = (
  add_entries (sorted_keys lock) lock [],
  parse_lock-entries lock (
      all_of (GoodKey lock) (sorted_keys lock)
        (λ k m. good k ((In-sort_strings k (keys lock)).0 m))),
  same,
)
  where
    same : (k : Str) → lookup k (add_entries (sorted_keys lock) lock []) ≡ lookup k lock
    same k = by_lookup (lookup k lock) refl
      where
        by_lookup :
            (r : Option Entry)
            → lookup k lock ≡ r
            → lookup k (add_entries (sorted_keys lock) lock []) ≡ lookup k lock
        by_lookup (some e) q =
            add_entries-added (sorted_keys lock) lock [] k e q
              ((In-sort_strings k (keys lock)).1 (lookup-In k lock (λ n. some_none (sym q ∙ n))))
            ∙ sym q
          where
            some_none : some e ≢ none
            some_none z = cc
        by_lookup none q =
            add_entries-other (sorted_keys lock) lock [] k
              (λ m. In-lookup k lock ((In-sort_strings k (keys lock)).0 m) q)
            ∙ (lookup_empty k ∙ sym q)
