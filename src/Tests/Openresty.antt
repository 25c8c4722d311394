-- ===== src/Tests/Openresty.antt =====
-- A server with no websites, and a website with a location of each kind.
use js_ng.Prelude.{
  ◌≡◌, refl, Bool, true, false, Option, none, some, List, [], ◌∷◌, Str, str, pos, str_eq, In,
}
use js_ng.Prelude.Dict.{lookup}
use js_ng.Prelude.Result.{ok}
use js_ng.Text.Decimal.{decimal, digits_before}
use js_ng.Base.Factory.{Own, absent, new_factory, is_identifier}
use js_ng.Base.Factory.Stored.{StoredFactory}
use js_ng.Openresty.{website_name, get_from_port}
use js_ng.Openresty.Ports.{website, Holds, get_from_port_twice}
use js_ng.Openresty.Configure.{
  Rendering, Location, Website, Written, mkdir, write_file, configure_website, configure_locations,
  configure_location, settle, has_files, with_slash, ends_in_slash, write_config, servers_dir,
  website_path,
}
use js_ng.Openresty.Twice.{configure_website_twice}
use js_ng.Tests.Base.{lib, plain_vault}

abbrev no_websites : StoredFactory plain_vault
no_websites = record { factory = new_factory; store = [] }

abbrev nothing_else : Str → Own
nothing_else n = absent

get_from_port_twice_example :
    (t : StoredFactory plain_vault) × (get_from_port lib plain_vault nothing_else
        (str "main")
        443
        (some (str "grid.tf"))
        false
        no_websites
      ≡ ok (website (pos 443) true (some (str "grid.tf")), t))
    × Holds lib plain_vault nothing_else
        (website_name (str "main") 443)
        (website (pos 443) true (some (str "grid.tf")))
        no_websites
        t
    × ((domain : Option Str) (ssl : Bool)
        → get_from_port lib plain_vault nothing_else (str "main") 443 domain ssl t
          ≡ ok (website (pos 443) true (some (str "grid.tf")), t))
get_from_port_twice_example =
    get_from_port_twice lib plain_vault nothing_else (str "main") 443 (some (str "grid.tf")) false
      no_websites (pos 0) refl refl (unfold website_name decimal digits_before str_eq in refl)
      (unfold website_name decimal digits_before is_identifier in refl) (unfold lookup in refl)

abbrev rendering : Rendering
rendering = record {
  location_text = λ template l. template;
  website_text = λ name w. name;
  server_text = λ logs. logs;
  cfg_dir = str "/cfg";
  logs_dir = str "/log";
}

abbrev with_type : Str → Option Str → Location
with_type t p = record {
  name = none;
  path_url = some (str "/");
  is_auth = false;
  force_https = false;
  path_location = p;
  index = none;
  use_weblibs = false;
  ipaddr_dest = none;
  port_dest = 0;
  path_dest = none;
  connection_type = none;
  location_type = some t;
  scheme = none;
  config = none;
}

abbrev of_locations : Str → Website
of_locations p = record {
  port = 80;
  ssl = false;
  domain = none;
  path = none;
  locations =
      (str "files", with_type (str "static") (some p))
      ∷ (str "api", with_type (str "proxy") none)
      ∷ [];
}

abbrev location_texts : List Written
location_texts =
    mkdir (str "/cfg/servers/site_locations")
    ∷ write_file (str "/cfg/servers/site_locations/files.conf") (str "location_static")
    ∷ mkdir (str "/cfg/servers/site_locations")
    ∷ write_file (str "/cfg/servers/site_locations/api.conf") (str "location_proxy")
    ∷ []

configured :
    configure_website rendering (str "site") (of_locations (str "/srv"))
    ≡ ok (
      mkdir (str "/cfg/servers")
          ∷ write_file (str "/cfg/servers/site.http.conf") (str "site")
          ∷ location_texts,
      of_locations (str "/srv/"),
    )
unfolding configure_website configure_locations configure_location settle has_files with_slash
    ends_in_slash write_config str_eq
configured = refl

configure_website_twice_example :
    (more : List Written) × (mkdir (str "/cfg/servers")
        ∷ write_file (str "/cfg/servers/site.http.conf") (str "site")
        ∷ location_texts
      ≡ mkdir (servers_dir rendering)
        ∷ write_file (website_path rendering (str "site")) (str "site")
        ∷ more)
    × ((name : Str) (l : Location)
        → In (name, l) (of_locations (str "/srv/")).locations
        → In (write_config rendering (str "site") name l) more)
    × (configure_website rendering (str "site") (of_locations (str "/srv/"))
        ≡ ok (
          mkdir (servers_dir rendering)
              ∷ write_file (website_path rendering (str "site")) (str "site")
              ∷ more,
          of_locations (str "/srv/"),
        ))
configure_website_twice_example =
    configure_website_twice rendering (str "site") (of_locations (str "/srv"))
      (of_locations (str "/srv/"))
      (mkdir (str "/cfg/servers")
        ∷ write_file (str "/cfg/servers/site.http.conf") (str "site")
        ∷ location_texts)
      configured
