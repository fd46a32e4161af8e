-- ===== src/Halda/Table.antt =====
-- The table that prima.cpp prints, as the head comment of halda.py shows it, is read back.
use mathlib.Core.List.{append_assoc}
use prima_pool_client.Base.{
  Text, ℕ, zero, suc, ◌-◌, ◌≡◌, refl, sym, ap, ◌∙◌, true, false, some, List, [], ◌∷◌, ◌++◌, codes,
  length, take, length-append, strip_prefix, arith,
}
use prima_pool_client.Base.Decimal.{is_digit, str, int, int-str}
use prima_pool_client.Base.Dict.{Dict, insert}
use prima_pool_client.Halda.Parse.{add_window, add_windows}
use prima_pool_client.Halda.Regex.{
  Match, find_from, search_first, alloc_header, device_index, layer_window, labelled, skip_spaces,
}
use prima_pool_client.Halda.Regex.Scan.{
  quiet, find_from-quiet, search_first-quiet, search_first-match, find_from-match, digits-str,
  skip_spaces-str, quiet-str,
}

-- `- LABEL<spaces>: N`, as matched at its dash.
labelled-index :
    (n c : ℕ) (rest : Text)
    → is_digit c ≡ false
    → device_index (codes "- Device Index   : " ++ (str n ++ (c ∷ rest))) ≡ some (str n, c ∷ rest)
unfolding labelled strip_prefix skip_spaces
labelled-index n c rest h = rw (skip_spaces-str n (c ∷ rest)) (digits-str n c rest h)

labelled-window :
    (n c : ℕ) (rest : Text)
    → is_digit c ≡ false
    → layer_window (codes "- N Layer Window : " ++ (str n ++ (c ∷ rest))) ≡ some (str n, c ∷ rest)
unfolding labelled strip_prefix skip_spaces
labelled-window n c rest h = rw (skip_spaces-str n (c ∷ rest)) (digits-str n c rest h)

pub record Device : Type 0 where
  pub name : Text
  pub assignment : Text
  pub window : ℕ
  pub gpu_layers : ℕ

-- The lines of a device from behind its index, with what follows them.
abbrev pub tail_text : Device → Text → Text
tail_text d post =
    codes "\n  - Assignment Set : "
    ++ (d.assignment
        ++ (codes "\n  "
            ++ (codes "- N Layer Window : "
                ++ (str d.window
                    ++ (codes "\n  - N GPU Layers   : "
                        ++ (str d.gpu_layers ++ (codes "\n\n" ++ post)))))))

abbrev pub index_text : ℕ → Device → Text → Text
index_text i d post = codes "- Device Index   : " ++ (str i ++ tail_text d post)

-- The blocks of devices that are numbered from `i` on, with what follows them.
unfoldable pub table_text : ℕ → List Device → Text → Text
table_text i [] post = post
table_text i (d ∷ ds) post =
    d.name ++ (codes ":\n  " ++ index_text i d (table_text (suc i) ds post))

-- A text in which, whatever follows it, no line of the table begins.
pub record IsPlain (p : Text) : Type 0 where
  pub no_index : (rest : Text) → quiet device_index p rest ≡ true
  pub no_window : (rest : Text) → quiet layer_window p rest ≡ true
  pub no_header : (rest : Text) → quiet alloc_header p rest ≡ true

abbrev pub ArePlain : List Device → Type 0
ArePlain [] = Unit
ArePlain (d ∷ ds) = (IsPlain d.name × IsPlain d.assignment) × ArePlain ds

find_from-tail :
    (d : Device) (post : Text)
    → IsPlain d.assignment
    → find_from device_index zero (tail_text d post) ≡ find_from device_index zero post
unfolding labelled strip_prefix skip_spaces
find_from-tail d post h =
    find_from-quiet device_index (codes "\n  - Assignment Set : ") _ refl
    ∙ find_from-quiet device_index d.assignment _ (h.no_index _)
    ∙ find_from-quiet device_index (codes "\n  ") _ refl
    ∙ find_from-quiet device_index (codes "- N Layer Window : ") _ refl
    ∙ find_from-quiet device_index (str d.window) _ (
        quiet-str (codes "Device Index") d.window
          (codes "\n  - N GPU Layers   : " ++ (str d.gpu_layers ++ (codes "\n\n" ++ post))))
    ∙ find_from-quiet device_index (codes "\n  - N GPU Layers   : ") _ refl
    ∙ find_from-quiet device_index (str d.gpu_layers) _
        (quiet-str (codes "Device Index") d.gpu_layers (codes "\n\n" ++ post))
    ∙ find_from-quiet device_index (codes "\n\n") post refl

find_from-index :
    (i : ℕ) (d : Device) (post : Text)
    → find_from device_index zero (index_text i d post)
      ≡ record { group = str i; from = index_text i d post; after = tail_text d post }
        ∷ find_from device_index zero (tail_text d post)
unfolding is_digit
find_from-index i d post =
    let p : Text = codes " Device Index   : " ++ str i in
    let e : p ++ tail_text d post ≡ codes " Device Index   : " ++ (str i ++ tail_text d post) =
      append_assoc (codes " Device Index   : ") (str i) (tail_text d post) in
    rw (← e) (
      find_from-match device_index b'-' p (tail_text d post) (str i)
        (rw e (labelled-index i b'\n' _ refl)))

search_first-tail :
    (d : Device) (post : Text)
    → IsPlain d.assignment
    → (m : Match) × (search_first layer_window (tail_text d post) ≡ some m)
      × (m.group ≡ str d.window)
unfolding labelled strip_prefix skip_spaces is_digit
search_first-tail d post h = (
  _,
  search_first-quiet layer_window (codes "\n  - Assignment Set : ") _ refl
      ∙ search_first-quiet layer_window d.assignment _ (h.no_window _)
      ∙ search_first-quiet layer_window (codes "\n  ") _ refl
      ∙ search_first-match layer_window b'-' _ (str d.window) _
          (labelled-window d.window b'\n' _ refl),
  refl,
)

-- What `finditer` should give for the table.
abbrev pub index_matches : ℕ → List Device → Text → List Match
index_matches i [] post = []
index_matches i (d ∷ ds) post =
    let rest = table_text (suc i) ds post in
    record { group = str i; from = index_text i d rest; after = tail_text d rest }
    ∷ index_matches (suc i) ds post

pub find_from-table :
    (i : ℕ) (ds : List Device) (post : Text)
    → ArePlain ds
    → find_from device_index zero post ≡ []
    → find_from device_index zero (table_text i ds post) ≡ index_matches i ds post
unfolding table_text labelled strip_prefix skip_spaces
find_from-table i [] post plain none_behind = none_behind
find_from-table i (d ∷ ds) post ((name, assignment), plain) none_behind =
    find_from-quiet device_index d.name _ (name.no_index _)
    ∙ find_from-quiet device_index (codes ":\n  ") _ refl
    ∙ find_from-index i d _
    ∙ ap
        (λ ms.
          record {
            group = str i;
            from = index_text i d (table_text (suc i) ds post);
            after = tail_text d (table_text (suc i) ds post);
          }
          ∷ ms)
        (find_from-tail d _ assignment ∙ find_from-table (suc i) ds post plain none_behind)

-- The windows of the devices under their numbers, in a dict.
unfoldable pub windows_of : ℕ → List Device → Dict ℕ → Dict ℕ
windows_of i [] windows = windows
windows_of i (d ∷ ds) windows = windows_of (suc i) ds (insert (str i) d.window windows)

add_window-tail :
    (i : ℕ) (d : Device) (from after post : Text) (windows : Dict ℕ)
    → IsPlain d.assignment
    → add_window (record { group = str i; from = from; after = after }) (tail_text d post) windows
      ≡ insert (str i) d.window windows
unfolding add_window
add_window-tail i d from after post windows h =
    let (m, found, group) = search_first-tail d post h in
    rw (found, add_window) (ap (λ n. insert (str i) n windows) (ap int group ∙ int-str d.window))

take-length-append : (a b : Text) → take (length (a ++ b) - length b) (a ++ b) ≡ a
take-length-append [] b =
    let e : 0 ≡ length b - length b = omega arith in ap (λ n. take n b) (sym e)
take-length-append (c ∷ a) b =
    let e : suc (length (a ++ b)) - length b ≡ suc (length (a ++ b) - length b) =
      omega (arith, length-append a b) in
    ap (λ n. take n (c ∷ (a ++ b))) e ∙ ap (λ s. c ∷ s) (take-length-append a b)

tail_text-append :
    (d : Device) (post rest : Text) → tail_text d (post ++ rest) ≡ tail_text d post ++ rest
tail_text-append d post rest = simp append_assoc

-- The block of a device ends where the dash of the next one's index stands.
block-tail :
    (d e : Device) (next : Text)
    → take
        (length (tail_text d (e.name ++ (codes ":\n  " ++ next))) - length next)
        (tail_text d (e.name ++ (codes ":\n  " ++ next)))
      ≡ tail_text d (e.name ++ codes ":\n  ")
block-tail d e next =
    ap (λ s. take (length s - length next) s)
      (ap (tail_text d) (sym (append_assoc e.name (codes ":\n  ") next))
        ∙ tail_text-append d (e.name ++ codes ":\n  ") next)
    ∙ take-length-append (tail_text d (e.name ++ codes ":\n  ")) next

add_window-block :
    (i : ℕ) (d e : Device) (from after next : Text) (windows : Dict ℕ)
    → IsPlain d.assignment
    → add_window
        (record { group = str i; from = from; after = after })
        (take
          (length (tail_text d (e.name ++ (codes ":\n  " ++ next))) - length next)
          (tail_text d (e.name ++ (codes ":\n  " ++ next))))
        windows
      ≡ insert (str i) d.window windows
add_window-block i d e from after next windows h =
    ap (λ b. add_window (record { group = str i; from = from; after = after }) b windows)
      (block-tail d e next)
    ∙ add_window-tail i d from after (e.name ++ codes ":\n  ") windows h

pub add_windows-table :
    (i : ℕ) (ds : List Device) (post : Text) (windows : Dict ℕ)
    → ArePlain ds
    → add_windows (index_matches i ds post) windows ≡ windows_of i ds windows
unfolding add_windows windows_of table_text
add_windows-table i [] post windows plain = refl
add_windows-table i (d ∷ []) post windows ((name, assignment), plain) =
    add_window-tail i d (index_text i d post) (tail_text d post) post windows assignment
add_windows-table i (d ∷ e ∷ ds) post windows ((name, assignment), plain) =
    let rest : Text = table_text (suc (suc i)) ds post in
    let next : Text = index_text (suc i) e rest in
    let behind : Text = e.name ++ (codes ":\n  " ++ next) in
    ap (add_windows (index_matches (suc i) (e ∷ ds) post))
      (add_window-block i d e (index_text i d behind) (tail_text d behind) next windows assignment)
    ∙ add_windows-table (suc i) (e ∷ ds) post (insert (str i) d.window windows) plain
