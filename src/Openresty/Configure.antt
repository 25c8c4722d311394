-- ===== src/Openresty/Configure.antt =====
-- servers/openresty/server.py and location.py: the configure methods, with what they tell the disk.
-- server.py's templates are rendered by jinja2, which is a parameter, as are the directories.
use js_ng.Prelude.{
  ℕ, Bool, true, false, ◌||◌, Option, none, some, List, [], ◌∷◌, ◌++◌, ◌==◌, str_eq, eqb,
  if◌then◌else◌, Str, str,
}
use js_ng.Prelude.Dict.{Dict}
use js_ng.Prelude.Result.{Result, ok, err, attribute_error, ◌>>=◌}

-- What the disk is told
pub data Written : Type 0 where
  mkdir : Str → Written
  write_file : Str → Str → Written
  rmtree : Str → Written

-- Location
pub record Location : Type 0 where
  pub name : Option Str
  pub path_url : Option Str
  pub is_auth : Bool
  pub force_https : Bool
  pub path_location : Option Str
  pub index : Option Str
  pub use_weblibs : Bool
  pub ipaddr_dest : Option Str
  pub port_dest : ℕ
  pub path_dest : Option Str
  pub connection_type : Option Str
  pub location_type : Option Str
  pub scheme : Option Str
  pub config : Option Str

-- Website, with its locations in the order that list_all gives their names in
pub record Website : Type 0 where
  pub port : ℕ
  pub ssl : Bool
  pub domain : Option Str
  pub path : Option Str
  pub locations : Dict Str Location

-- path.endswith("/")
unfoldable pub ends_in_slash : Str → Bool
ends_in_slash [] = false
ends_in_slash (c ∷ []) = eqb c b'/'
ends_in_slash (c ∷ d ∷ s) = ends_in_slash (d ∷ s)

-- `if not path.endswith("/"): path += "/"`
unfoldable pub with_slash : Str → Str
unfolding ends_in_slash
with_slash p = if ends_in_slash p then p else p ++ b'/' ∷ []

-- f"{v}", of a text or None
abbrev pub shown : Option Str → Str
shown none = str "None"
shown (some s) = s

-- location_type in ["static", "spa"]
unfoldable pub has_files : Option Str → Bool
has_files none = false
has_files (some t) = t == str "static" || t == str "spa"

-- What Location.configure does to the location
unfoldable pub settle : Location → Result Location
unfolding has_files with_slash
settle l = elim (has_files l.location_type) [
  | false ↦ ok l
  | true ↦ elim l.path_location [
    | none ↦ err attribute_error
    | some p ↦ ok (record l { path_location = some (with_slash p) })
  ]
]

-- The texts that the templates give, and path_cfg_dir and logs_dir of the server
pub record Rendering : Type 0 where
  pub location_text : Str → Location → Str
  pub website_text : Str → Website → Str
  pub server_text : Str → Str
  pub cfg_dir : Str
  pub logs_dir : Str

module _ (r : Rendering) where
  -- Website.path_cfg_dir
  abbrev pub servers_dir : Str
  servers_dir = r.cfg_dir ++ str "/servers"

  -- Website.path_cfg
  abbrev pub website_path : Str → Str
  website_path website = servers_dir ++ b'/' ∷ website ++ str ".http.conf"

  -- Location.path_cfg_dir
  abbrev pub locations_dir : Str → Str
  locations_dir website = servers_dir ++ b'/' ∷ website ++ str "_locations"

  -- Location.write_config(self.config)
  unfoldable pub write_config : Str → Str → Location → Written
  write_config website name l =
      let path = locations_dir website ++ b'/' ∷ name ++ str ".conf" in
      let rendered = r.location_text (str "location_" ++ shown l.location_type) l in
      elim l.config [
        | none ↦ write_file path rendered
        | some [] ↦ write_file path rendered
        | some (c ∷ s) ↦ write_file path (c ∷ s)
      ]

  -- Location.configure
  unfoldable pub configure_location : Str → Str → Location → Result (List Written × Location)
  unfolding settle write_config
  configure_location website name l = do
    l' ← settle l
    ok (mkdir (locations_dir website) ∷ write_config website name l' ∷ [], l')

  -- The loop of Website.configure
  unfoldable pub configure_locations :
      Str → Dict Str Location → Result (List Written × Dict Str Location)
  unfolding configure_location
  configure_locations website [] = ok ([], [])
  configure_locations website ((name, l) ∷ ls) = do
    (told, l') ← configure_location website name l
    (more, ls') ← configure_locations website ls
    ok (told ++ more, (name, l') ∷ ls')

  -- Website.configure
  unfoldable pub configure_website : Str → Website → Result (List Written × Website)
  unfolding configure_locations
  configure_website website w = do
    (told, ls) ← configure_locations website w.locations
    ok (
      mkdir servers_dir
          ∷ write_file (servers_dir ++ b'/' ∷ website ++ str ".http.conf")
              (r.website_text website w)
          ∷ told,
      record w { locations = ls },
    )

  -- OpenRestyServer.cleanup
  unfoldable pub cleanup : List Written
  cleanup = rmtree (r.cfg_dir ++ str "/servers") ∷ []

  -- OpenRestyServer.configure
  unfoldable pub configure_server : List Written
  unfolding cleanup
  configure_server =
      cleanup ++ write_file (r.cfg_dir ++ str "/nginx.conf") (r.server_text r.logs_dir) ∷ []
