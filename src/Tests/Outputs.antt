-- ===== src/Tests/Outputs.antt =====
-- The theorems on the node process and on its output at concrete data.
use mathlib.Core.Option
use prima_pool_client.Base.{
  Text, ℕ, ◌<◌, ◌≤◌, ◌≡◌, refl, inl, ◌⊎◌, true, false, none, some, List, [], ◌∷◌, ◌++◌, codes,
  length, text_eq, if◌then◌else◌, Error, ok, err, arith, split_on, select, strip_prefix, Bool,
}
use prima_pool_client.Base.Decimal.{str, int}
use prima_pool_client.Base.Dict.{Dict, get_key, lookup}
use prima_pool_client.Halda.Laws.{names_rank, build_distribution-multi, build_distribution-sources}
use prima_pool_client.Halda.Parse.{
  parse_distribution, parse_window_size, build_distribution, table_windows,
}
use prima_pool_client.Halda.Regex.{
  Match, find_iter, header_text, remove_device, search_first, alloc_header, window_size, labelled,
}
use prima_pool_client.Halda.RoundTrip.{parse_distribution-table_text}
use prima_pool_client.Halda.Table.{Device, IsPlain, table_text}
use prima_pool_client.Prima.Capture.{started, read}
use prima_pool_client.Prima.Capture.Laws.{last, delivered, read-delivered}
use prima_pool_client.Prima.Env.{build_env}
use prima_pool_client.Prima.Env.Laws.{launch_env-agree, launch_env-ok}
use prima_pool_client.Prima.Hash.{compute_gguf_sha256, compute_gguf_sha256-whole}
use prima_pool_client.Prima.Launcher.{Launcher, launch, is_docker}
use prima_pool_client.Prima.Launcher.Laws.{
  HasOptions, node_spawn, launch-node_spawn, launch_refused,
}
use prima_pool_client.Ring.{ring_members, ring_neighbors, first_ip, next_idx}
use prima_pool_client.Tests.Fixtures.{machine, cluster, config, hasher}

abbrev node_a : Device
node_a = record { name = codes "mac"; assignment = codes "M4"; window = 35; gpu_layers = 0 }

abbrev node_b : Device
node_b = record { name = codes "pi"; assignment = codes "M4"; window = 24; gpu_layers = 0 }

IsPlain-parameters : IsPlain (codes "\n")
unfolding labelled alloc_header strip_prefix
IsPlain-parameters = record { no_index = λ r. refl; no_window = λ r. refl; no_header = λ r. refl }

IsPlain-a : IsPlain (codes "mac")
unfolding labelled alloc_header strip_prefix
IsPlain-a = record { no_index = λ r. refl; no_window = λ r. refl; no_header = λ r. refl }

IsPlain-b : IsPlain (codes "pi")
unfolding labelled alloc_header strip_prefix
IsPlain-b = record { no_index = λ r. refl; no_window = λ r. refl; no_header = λ r. refl }

IsPlain-set : IsPlain (codes "M4")
unfolding labelled alloc_header strip_prefix
IsPlain-set = record { no_index = λ r. refl; no_window = λ r. refl; no_header = λ r. refl }

-- A removal in front of the table names the second device.
abbrev removal : Text
removal = codes "Remove device pi (rank 1) with only 1 layer assigned.\n"

parse_distribution-table_text_example :
    let table : Dict ℕ = (codes "0", 35) ∷ (codes "1", 24) ∷ [] in
    let stdout : Text =
      removal
      ++ (header_text ++ (codes "\n" ++ table_text 0 (node_a ∷ node_b ∷ []) (codes "done\n"))) in
    (windows : Dict ℕ) × (parse_distribution stdout ≡ some windows)
    × (lookup (codes "1") windows ≡ (
        if names_rank (codes "1") (find_iter remove_device stdout)
        then Option.map (λ _. 0) (lookup (codes "1") table)
        else lookup (codes "1") table))
unfolding str find_iter labelled alloc_header
parse_distribution-table_text_example =
    parse_distribution-table_text removal (codes "\n") (codes "done\n") node_a (node_b ∷ [])
      (codes "1") IsPlain-parameters ((IsPlain-a, IsPlain-set), ((IsPlain-b, IsPlain-set), tt)) refl
      refl

abbrev single : Text
single = codes "Using window size: 72, GPU layers: 0\n"

build_distribution-sources_example :
    (parse_distribution single ≡ some ((codes "0", 72) ∷ []))
    ⊎ ((◌≡◌ {A = ℕ} 1 1)
        × (parse_distribution single ≡ none)
        × ((n : ℕ) × (0 < n)
            × (parse_window_size single ≡ some n)
            × (◌≡◌ {A = Dict ℕ} ((codes "0", 72) ∷ []) ((codes "0", n) ∷ []))))
unfolding build_distribution parse_window_size window_size parse_distribution alloc_header
    table_windows search_first find_iter int
build_distribution-sources_example =
    build_distribution-sources single 1 {d = (codes "0", 72) ∷ []} refl

build_distribution-multi_example : build_distribution single 3 ≡ parse_distribution single
build_distribution-multi_example = build_distribution-multi single 3 (omega arith)

abbrev removed_b : Match
removed_b = record { group = codes "1"; from = []; after = [] }

neighbors_1 : ring_neighbors cluster 1 ≡ ok (codes "10.23.1.1", codes "10.23.1.3")
unfolding ring_neighbors ring_members first_ip next_idx select split_on
neighbors_1 = refl

neighbors_2 : ring_neighbors cluster 2 ≡ ok (codes "10.23.1.1", codes "10.23.1.1")
unfolding ring_neighbors ring_members first_ip next_idx select split_on
neighbors_2 = refl

launch_env-agree_example :
    let env =
      build_env config 1 (length (ring_members cluster)) (codes "10.23.1.1") (codes "10.23.1.3") in
    let env' =
      build_env config 2 (length (ring_members cluster)) (codes "10.23.1.1") (codes "10.23.1.1") in
    (get_key env (codes "WORLD") ≡ get_key env' (codes "WORLD"))
    × (get_key env (codes "MASTER_IP") ≡ get_key env' (codes "MASTER_IP"))
    × (get_key env (codes "RANK") ≡ ok (str 1))
    × (get_key env' (codes "RANK") ≡ ok (str 2))
launch_env-agree_example =
    launch_env-agree config config cluster 1 2 (launch_env-ok config cluster 1 neighbors_1)
      (launch_env-ok config cluster 2 neighbors_2)

abbrev idle : Launcher ℕ
idle = record { proc = none; capture = none; world = 0 }

launch-node_spawn_example :
    (launch machine config cluster 1 idle
      ≡ (ok 42, record { proc = some 42; capture = some (started 42); world = 1 }))
    × HasOptions machine config cluster 1
        (codes "10.23.1.1")
        (codes "10.23.1.3")
        (node_spawn machine config cluster 1
          (codes "/usr/bin/llama-cli")
          (codes "10.23.1.1")
          (codes "10.23.1.3")).cmd
unfolding is_docker text_eq
launch-node_spawn_example =
    launch-node_spawn machine config cluster 1 {binary = codes "/usr/bin/llama-cli"} {pid = 42}
      {w = 1} idle refl neighbors_1 refl refl refl

launch_refused_example :
    (e : Error) × (launch machine config (record cluster { peers = [] }) 1 idle ≡ (err e, idle))
unfolding is_docker text_eq ring_neighbors ring_members select
launch_refused_example =
    launch_refused machine config (record cluster { peers = [] }) 1 idle refl (inl refl)

-- The text of ASCII bytes.
abbrev decode : List ℕ → Text
decode raw = raw

abbrev events : List (List ℕ × Bool)
events =
    (codes "a\n", false) ∷ (codes "b\n", false) ∷ (codes "c\n", false) ∷ (codes "d\n", true) ∷ []

read-delivered_example :
    (read decode 2 [] events ≡ last 2 (delivered decode events))
    × (length (read decode 2 [] events) ≤ 2)
read-delivered_example = read-delivered decode 2 events

compute_gguf_sha256-whole_example :
    compute_gguf_sha256 hasher 3 (codes "GGUFdata") ≡ some (codes "GGUFdata")
compute_gguf_sha256-whole_example =
    compute_gguf_sha256-whole hasher 3 (codes "GGUFdata") (omega arith)
