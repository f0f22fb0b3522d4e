-- ===== src/Server/Config/Tests.antt =====
-- A configuration with two backends.
use infer_flow.Prelude.{◌≡◌, ◌≢◌, refl, true, List, [], ◌∷◌, map, All, none, arith}
use infer_flow.Text.{codes, is_space, join}
use infer_flow.Server.Samples.{environment, first_backend, second_backend, two_backends, two_loaded}
use infer_flow.Server.Config.{split_and_trim}
use infer_flow.Server.Config.Backends.{load_config_from_env_distinct}
use infer_flow.Server.Config.Urls.{Padded, IsPadded, padded_text, urls_of, split_and_trim-join}

load_config_from_env_distinct_example : first_backend.name ≢ second_backend.name
load_config_from_env_distinct_example =
    load_config_from_env_distinct environment (λ url. true) (λ s. none) two_backends 0 1 two_loaded
      refl refl (λ e. omega arith)

-- " a,,b ".
abbrev padded : List Padded
padded =
    record { before = codes " "; url = codes "a"; after = [] }
    ∷ record { before = []; url = []; after = [] }
    ∷ record { before = []; url = codes "b"; after = codes " " }
    ∷ []

padded-IsPadded : All IsPadded padded
unfolding is_space
padded-IsPadded = (
  record { before = (refl, tt); after = tt; starts = refl; stops = refl; free = (refl, tt) },
  (
    record { before = tt; after = tt; starts = tt; stops = tt; free = tt },
    (
      record { before = tt; after = (refl, tt); starts = refl; stops = refl; free = (refl, tt) },
      tt,
    ),
  ),
)

split_and_trim-join_example :
    split_and_trim (join (map padded_text padded) (b',' ∷ [])) ≡ urls_of padded
split_and_trim-join_example = split_and_trim-join padded padded-IsPadded
