-- ===== src/Git/Urls.antt =====
-- The url of a repository, rewritten for ssh and back.
use js_ng.Prelude.{◌≡◌, false, ◌||◌, [], ◌∷◌, eqb, Str}

-- A name of a machine: it has neither a colon nor a slash.
abbrev pub IsNetloc : Str → Type 0
IsNetloc [] = Unit {0}
IsNetloc (c ∷ s) = ((eqb c b':' || eqb c b'/') ≡ false) × IsNetloc s
