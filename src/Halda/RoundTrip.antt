-- ===== src/Halda/RoundTrip.antt =====
-- `parse_distribution` over a whole output that ends in a printed table.
use mathlib.Core.Option
use mathlib.Core.List.{append_assoc, append-nil}
use prima_pool_client.Base.{
  Text, ℕ, zero, suc, ◌≤◌, ◌≡◌, refl, sym, ap, ◌∙◌, none, some, List, [], ◌∷◌, ◌++◌, codes, drop,
  strip_prefix, if◌then◌else◌, arith,
}
use prima_pool_client.Base.Decimal.{str, str-injective}
use prima_pool_client.Base.Dict.{Dict, lookup, insert_fresh, lookup-append_fresh}
use prima_pool_client.Halda.Header.{last_match-header, find-header_text}
use prima_pool_client.Halda.Laws.{names_rank, lookup-zero_removed}
use prima_pool_client.Halda.Parse.{
  add_windows, table_windows, parse_distribution, zero_removed, last_match, if_any,
}
use prima_pool_client.Halda.Regex.{
  Match, find_from, find_iter, alloc_header, header_text, device_index, labelled, remove_device,
  ◌>>=◌,
}
use prima_pool_client.Halda.Regex.Scan.{find_from-quiet, quiet_header-str}
use prima_pool_client.Halda.Table.{
  Device, table_text, IsPlain, ArePlain, find_from-table, windows_of, add_windows-table,
}

no_header-table :
    (i : ℕ) (ds : List Device) (post : Text)
    → ArePlain ds
    → find_from alloc_header zero post ≡ []
    → find_from alloc_header zero (table_text i ds post) ≡ []
unfolding table_text alloc_header strip_prefix
no_header-table i [] post plain h = h
no_header-table i (d ∷ ds) post ((name, assignment), plain) h =
    find_from-quiet alloc_header d.name _ (name.no_header _)
    ∙ find_from-quiet alloc_header (codes ":\n  ") _ refl
    ∙ find_from-quiet alloc_header (codes "- Device Index   : ") _ refl
    ∙ find_from-quiet alloc_header (str i) _ (quiet_header-str i _)
    ∙ find_from-quiet alloc_header (codes "\n  - Assignment Set : ") _ refl
    ∙ find_from-quiet alloc_header d.assignment _ (assignment.no_header _)
    ∙ find_from-quiet alloc_header (codes "\n  ") _ refl
    ∙ find_from-quiet alloc_header (codes "- N Layer Window : ") _ refl
    ∙ find_from-quiet alloc_header (str d.window) _ (quiet_header-str d.window _)
    ∙ find_from-quiet alloc_header (codes "\n  - N GPU Layers   : ") _ refl
    ∙ find_from-quiet alloc_header (str d.gpu_layers) _ (quiet_header-str d.gpu_layers _)
    ∙ find_from-quiet alloc_header (codes "\n\n") _ refl
    ∙ no_header-table (suc i) ds post plain h

-- The windows under the numbers of the devices, in order.
abbrev pub numbered : ℕ → List Device → Dict ℕ
numbered i [] = []
numbered i (d ∷ ds) = (str i, d.window) ∷ numbered (suc i) ds

windows_of-numbered :
    (i : ℕ) (ds : List Device) (windows : Dict ℕ)
    → ((j : ℕ) → i ≤ j → lookup (str j) windows ≡ none)
    → windows_of i ds windows ≡ windows ++ numbered i ds
unfolding windows_of
windows_of-numbered i [] windows fresh = sym (append-nil windows)
windows_of-numbered i (d ∷ ds) windows fresh =
    ap (windows_of (suc i) ds) (insert_fresh (str i) d.window windows (fresh i (omega arith)))
    ∙ windows_of-numbered (suc i) ds (windows ++ ((str i, d.window) ∷ [])) (λ j h.
      lookup-append_fresh (str j) (str i) d.window windows (fresh j (omega arith))
        (λ e. let same : i ≡ j = str-injective i j e in absurd (omega arith)))
    ∙ append_assoc windows ((str i, d.window) ∷ []) (numbered (suc i) ds)

parse_distribution_lem :
    (stdout : Text)
    → parse_distribution stdout ≡ (do
      windows ← table_windows stdout
      some (zero_removed (find_iter remove_device stdout) windows))
unfolding parse_distribution table_windows find_iter
parse_distribution_lem [] = refl
parse_distribution_lem (c ∷ stdout) = refl

table_windows-from :
    (stdout : Text) (m : Match)
    → last_match (find_iter alloc_header stdout) ≡ some m
    → table_windows stdout ≡ if_any (add_windows (find_iter device_index m.from) [])
unfolding table_windows
table_windows-from stdout m h = rw (h, table_windows) refl

module _ (preamble post : Text) (d : Device) (ds : List Device) (plain : IsPlain preamble)
    (devices : ArePlain (d ∷ ds)) where
  abbrev body : Text
  body = preamble ++ table_text 0 (d ∷ ds) post

  one_header :
      find_iter alloc_header post ≡ []
      → last_match (find_iter alloc_header (header_text ++ body))
        ≡ some (record { group = []; from = header_text ++ body; after = body })
  unfolding find_iter last_match
  one_header no_header = ap last_match (
      find-header_text body
      ∙ ap (λ ms. record { group = []; from = header_text ++ body; after = body } ∷ ms)
          (find_from-quiet alloc_header preamble _ (plain.no_header _)
            ∙ no_header-table 0 (d ∷ ds) post devices no_header))

  header_windows :
      find_iter device_index post ≡ []
      → if_any (add_windows (find_iter device_index (header_text ++ body)) [])
        ≡ some (numbered 0 (d ∷ ds))
  unfolding find_iter if_any labelled strip_prefix lookup
  header_windows no_index =
      ap (λ ms. if_any (add_windows ms []))
        (find_from-quiet device_index header_text body refl
          ∙ find_from-quiet device_index preamble _ (plain.no_index _)
          ∙ find_from-table 0 (d ∷ ds) post devices no_index)
      ∙ ap if_any (
          add_windows-table 0 (d ∷ ds) post [] devices
          ∙ windows_of-numbered 0 (d ∷ ds) [] (λ j h. refl))

-- The output of a head that printed anything, then a table of one or more devices in the format
-- of halda.py's head comment, then lines with no other header or device index, is parsed to
-- windows that have, for every rank, the window of the device of that number, or 0 for a device
-- that a removal anywhere in the output names, also one in front of the table; a rank that is no
-- device's number has no window.
pub parse_distribution-table_text :
    (pre preamble post : Text) (d : Device) (ds : List Device) (rank : Text)
    → IsPlain preamble
    → ArePlain (d ∷ ds)
    → find_iter device_index post ≡ []
    → find_iter alloc_header post ≡ []
    → let stdout : Text = pre ++ (header_text ++ (preamble ++ table_text 0 (d ∷ ds) post)) in
      let window = lookup rank (numbered 0 (d ∷ ds)) in
      (windows : Dict ℕ) × (parse_distribution stdout ≡ some windows)
      × (lookup rank windows ≡ (
          if names_rank rank (find_iter remove_device stdout)
          then Option.map (λ _. 0) window
          else window))
parse_distribution-table_text pre preamble post d ds rank plain devices no_index no_header =
    let stdout : Text = pre ++ (header_text ++ (preamble ++ table_text 0 (d ∷ ds) post)) in
    let from : Text = header_text ++ (preamble ++ table_text 0 (d ∷ ds) post) in
    let m : Match = record { group = []; from = from; after = drop 30 from } in
    let found : table_windows stdout ≡ some (numbered 0 (d ∷ ds)) =
      table_windows-from stdout m (
        last_match-header pre (preamble ++ table_text 0 (d ∷ ds) post)
        ∙ one_header preamble post d ds plain devices no_header)
      ∙ header_windows preamble post d ds plain devices no_index in
    (
      zero_removed (find_iter remove_device stdout) (numbered 0 (d ∷ ds)),
      rw (parse_distribution_lem, found) refl,
      lookup-zero_removed rank (find_iter remove_device stdout) (numbered 0 (d ∷ ds)),
    )
