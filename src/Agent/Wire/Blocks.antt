-- ===== src/Agent/Wire/Blocks.antt =====
-- Blocks come back from the wire as they went.
use package.text.Mathlib.Text.{◌==◌ as str_eq}
use krane_event_management_p.Common.{◌≡◌, refl, false, List, [], ◌∷◌, All, arith}
use krane_event_management_p.Agent.{ContentBlock, text, tool_use, tool_result, other}
use krane_event_management_p.Agent.Wire.{
  to_wire_block, from_wire_block, to_wire_blocks, from_wire_blocks,
}

-- A block of another type is not spelled like one of the three.
abbrev pub IsSpelled : ContentBlock → Type 0
IsSpelled (other t) =
    (str_eq t "text" ≡ false) × (str_eq t "tool_use" ≡ false) × (str_eq t "tool_result" ≡ false)
IsSpelled _ = Unit

from_wire_block-to_wire_block :
    (b : ContentBlock) → IsSpelled b → from_wire_block (to_wire_block b) ≡ b
from_wire_block-to_wire_block (text t) h = refl
from_wire_block-to_wire_block (tool_use id name input) h = refl
from_wire_block-to_wire_block (tool_result id content is_error) h = refl
from_wire_block-to_wire_block (other t) h = ground (arith, h.0, h.1, h.2)

pub from_wire_blocks-to_wire_blocks :
    (blocks : List ContentBlock)
    → All IsSpelled blocks
    → from_wire_blocks (to_wire_blocks blocks) ≡ blocks
unfolding from_wire_blocks to_wire_blocks
from_wire_blocks-to_wire_blocks [] h = refl
from_wire_blocks-to_wire_blocks (b ∷ blocks) h =
    λ i. from_wire_block-to_wire_block b h.0 i ∷ from_wire_blocks-to_wire_blocks blocks h.1 i
