-- ===== src/Tests/Halda.antt =====
-- tests/test_halda.py
use prima_pool_client.Base.{Text, ℕ, ◌≡◌, refl, some, none, [], ◌∷◌, ◌++◌, codes, text_eq}
use prima_pool_client.Base.Dict.{Dict, lookup, insert}
use prima_pool_client.Base.Decimal.{int}
use prima_pool_client.Halda.Parse.{
  parse_distribution, parse_window_size, build_distribution, table_windows, zero_removed,
}
use prima_pool_client.Halda.Regex.{
  search_first, find_iter, remove_device, alloc_header, labelled, window_size,
}

abbrev table : Text
table =
    codes "\n----- Allocation Strategy (by HiGHS) -----\n\nParameters:\n  - k = 3\n  - W = 24\n\n"
    ++ (codes
          "Device A:\n  - Device Index   : 0\n  - Assignment Set : M4\n  - N Layer Window : 35\n"
        ++ (codes
              "  - N GPU Layers   : 0\n\nDevice B:\n  - Device Index   : 1\n  - Assignment Set : M4\n"
            ++ (codes
                  "  - N Layer Window : 24\n  - N GPU Layers   : 0\n\nDevice C:\n  - Device Index   : 2\n"
                ++ codes
                    "  - Assignment Set : M4\n  - N Layer Window : 13\n  - N GPU Layers   : 0\n")))

abbrev windows : ℕ → Dict ℕ
windows c = (codes "0", 35) ∷ (codes "1", 24) ∷ (codes "2", c) ∷ []

parse_rank_order : parse_distribution table ≡ some (windows 13)
unfolding parse_distribution table_windows zero_removed find_iter search_first remove_device
    alloc_header labelled int lookup insert text_eq
parse_rank_order = refl

parse_no_table : parse_distribution (codes "some random output\nno allocation here") ≡ none
unfolding parse_distribution table_windows zero_removed find_iter search_first remove_device
    alloc_header labelled int lookup insert text_eq
parse_no_table = refl

parse_removed :
    parse_distribution
      (table ++ codes "\nRemove device Device C (rank 2) with only 1 layer assigned.\n")
    ≡ some (windows 0)
unfolding parse_distribution table_windows zero_removed find_iter search_first remove_device
    alloc_header labelled int lookup insert text_eq
parse_removed = refl

build_single :
    build_distribution (codes "Using window size: 72, GPU layers: 0\n") 1
    ≡ some ((codes "0", 72) ∷ [])
unfolding build_distribution parse_window_size window_size parse_distribution alloc_header
    table_windows search_first find_iter int
build_single = refl
