-- ===== src/State/Tests.antt =====
-- The theorems on state.c applied to short data.
use startup.Base.{[], ◌∷◌, ◌≡◌, arith, Str}
use startup.State.{converted, state_data_to_hex, state_hex_to_data, state_hex_to_data-data_to_hex}

state_hex_to_data-data_to_hex_example :
    (hex : Str) × (state_data_to_hex (255 ∷ 0 ∷ 16 ∷ []) ≡ converted hex)
    × (state_hex_to_data hex ≡ converted (255 ∷ 0 ∷ 16 ∷ []))
state_hex_to_data-data_to_hex_example =
    state_hex_to_data-data_to_hex 255 (0 ∷ 16 ∷ []) (omega arith, (omega arith, (omega arith, tt)))
