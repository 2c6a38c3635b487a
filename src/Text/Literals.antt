-- ===== src/Text/Literals.antt =====
-- String literals of the source as lists of UTF-16 units, for texts within the basic plane.
use Prim.Native.Char.{code}
use Prim.Native.String.{String}
use kafka_node_ts.Prelude.{[], ◌∷◌}
use kafka_node_ts.Text.{JsString}

abbrev pub codes : String → JsString
codes String.[] = []
codes (String.◌∷◌ c s) = code c ∷ codes s
