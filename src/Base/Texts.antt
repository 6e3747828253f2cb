-- ===== src/Base/Texts.antt =====
-- The concatenation of texts, under a name of its own beside that of lists.
use Prim.Native.String.{String, ◌++◌}

abbrev pub concat : String → String → String
concat s t = s ++ t
