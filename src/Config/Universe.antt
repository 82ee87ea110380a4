-- ===== src/Config/Universe.antt =====
-- The DMX universe of a configuration.
use dmx_enttec_node.Prelude.{
  ℕ, ◌+◌, ◌*◌, ◌/◌, ◌<◌, ◌≡◌, refl, ◌⊎◌, inl, inr, none, some, Option-cases, ℤ, pos, negsuc,
  json_error, Result, ok, throw, fault, ◌>>=◌, arith,
}
use dmx_enttec_node.Config.{Config, Json, load_config_dmx_usb_node, to_unsigned}

-- `low` is the number below `modulus` that differs from the integer by a multiple of it.
abbrev pub IsResidue : ℕ → ℤ → ℕ → Type 0
IsResidue modulus (pos n) low = (low < modulus) × ((k : ℕ) × (n ≡ low + k * modulus))
IsResidue modulus (negsuc n) low = (low < modulus) × ((k : ℕ) × (low + (n + 1) ≡ k * modulus))

to_unsigned-IsResidue_16 : (z : ℤ) → IsResidue 65536 z (to_unsigned 16 z)
to_unsigned-IsResidue_16 (pos n) = (omega arith, (n / 65536, omega arith))
to_unsigned-IsResidue_16 (negsuc n) = (omega arith, (n / 65536 + 1, omega arith))

to_unsigned-IsResidue_32 : (z : ℤ) → IsResidue 4294967296 z (to_unsigned 32 z)
to_unsigned-IsResidue_32 (pos n) = (omega arith, (n / 4294967296, omega arith))
to_unsigned-IsResidue_32 (negsuc n) = (omega arith, (n / 4294967296 + 1, omega arith))

-- How the loader ends: with the two numbers of the file cut to their width and all else as it was,
-- or with the exception of a number that is missing.
abbrev pub Loads : Config → Json → Result Config → Type 0
Loads c json (ok c') =
    (port universe : ℤ) × (json.int_at "overlay_listen_port" ≡ some port)
    × (json.int_at "dmx_universe" ≡ some universe)
    × IsResidue 4294967296 port c'.overlay_listen_port
    × IsResidue 65536 universe c'.dmx_universe
    × (c'
        ≡ record c { overlay_listen_port = c'.overlay_listen_port; dmx_universe = c'.dmx_universe })
Loads c json (throw e) =
    (e ≡ json_error)
    × ((json.int_at "overlay_listen_port" ≡ none) ⊎ (json.int_at "dmx_universe" ≡ none))
Loads c json fault = ⊥

-- However the loader of the DMX node ends: if both numbers are in the file, it succeeds, whatever
-- their signs, with the residues of the port modulo 2 ^ 32 and of the universe modulo 2 ^ 16, and it
-- throws only where a number is missing; the exception for a negative universe is never raised.
pub load_config_dmx_usb_node-Loads :
    (c : Config) (json : Json) → Loads c json (load_config_dmx_usb_node c json)
unfolding load_config_dmx_usb_node
load_config_dmx_usb_node-Loads c json = elim (Option-cases (json.int_at "overlay_listen_port")) [
  | inl missing ↦ rw (missing, ◌>>=◌) (refl, inl missing)
  | inr (port, there) ↦ elim (Option-cases (json.int_at "dmx_universe")) [
    | inl missing ↦ rw (there, missing, ◌>>=◌) (refl, inr missing)
    | inr (universe, present) ↦
        rw (there, present, ◌>>=◌)
          (
            port,
            universe,
            there,
            present,
            to_unsigned-IsResidue_32 port,
            to_unsigned-IsResidue_16 universe,
            refl,
          )
  ]
]
