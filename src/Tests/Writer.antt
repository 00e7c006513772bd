-- ===== src/Tests/Writer.antt =====
-- The writer's scopes at concrete contents.
use snmpio.Common.{ℕ, List, [], ◌∷◌, ◌++◌, ◌≡◌, refl, replicate}
use snmpio.Ber.Writer.{in_scope, raw}
use snmpio.Ber.Writer.Shape.{ready, element, in_scope-ready}

-- A content long enough for the placeholder to be widened.
abbrev content : List ℕ
content = replicate 200 7

in_scope-ready_example :
    in_scope 0x30 (raw content) (ready (1 ∷ [])) ≡ ready ((1 ∷ []) ++ element 0x30 content)
in_scope-ready_example =
    in_scope-ready 0x30 (raw content) content (1 ∷ []) refl (λ b. unfold raw in refl)
