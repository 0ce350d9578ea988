-- ===== src/Types/Keys/Tests.antt =====
-- Keys at concrete bytes.
use wgctrl_go.Base.{ℕ, List, Option, ◌≡◌, refl, replicate, All-replicate, ◌<◌, arith}
use wgctrl_go.Base.Result.{ok}
use wgctrl_go.Types.{Key}
use wgctrl_go.Types.Keys.{IsKey, key_string, parse_key, generate_private_key, parse_key-key_string}
use wgctrl_go.Types.Keys.Clamp.{IsClamped, generate_private_key-IsClamped}

abbrev drawn : List ℕ
drawn = replicate 32 255

drawn-IsKey : IsKey drawn
drawn-IsKey = record {
  size = refl;
  bytes = All-replicate (λ (b : ℕ). b < 256) 32 {a = 255} (omega arith);
}

parse_key-key_string_example : parse_key (key_string drawn) ≡ ok drawn
parse_key-key_string_example = parse_key-key_string {k = drawn} drawn-IsKey

generate_private_key-IsClamped_example :
    (k : Key) × (generate_private_key (Option.some drawn) ≡ ok k) × IsClamped drawn k
generate_private_key-IsClamped_example = generate_private_key-IsClamped drawn drawn-IsKey
