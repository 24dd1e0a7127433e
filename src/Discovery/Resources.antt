-- ===== src/Discovery/Resources.antt =====
-- The resource that a command asks for (pkg/discovery/parser.go). url.Parse is an argument.
use patience.Base.{
  Bool, not, ◌||◌, Option, none, some, List, [], ◌∷◌, ◌++◌, Text, codes, is_empty, same_text,
  has_prefix, join, if◌then◌else◌,
}

pub record Resource : Type 0 where
  pub resource_id : Text
  pub host : Text
  pub path : Text

-- The host and the path of a URL.
pub record Url : Type 0 where
  pub host : Text
  pub path : Text

abbrev pub path_or_root : Text → Text
path_or_root path = if is_empty path then codes "/" else path

abbrev pub is_flag : Text → Bool
is_flag arg = has_prefix arg (codes "-")

abbrev pub first_or_empty : List Text → Text
first_or_empty [] = []
first_or_empty (arg ∷ args) = arg

-- The arguments after the name of the command. Where -u or --url is last, the loop ends.
unfoldable pub extract_url_from_curl : List Text → Text
extract_url_from_curl [] = []
extract_url_from_curl (arg ∷ args) =
    let rest = extract_url_from_curl args in
    if not (is_flag arg)
    then arg
    else if same_text arg (codes "-u") || same_text arg (codes "--url")
    then first_or_empty args
    else rest

unfoldable pub extract_url_from_wget : List Text → Text
extract_url_from_wget [] = []
extract_url_from_wget (arg ∷ args) =
    let rest = extract_url_from_wget args in if not (is_flag arg) then arg else rest

abbrev pub with_defaults : Resource → Resource
with_defaults r = record r {
  host = if is_empty r.host then codes "unknown" else r.host;
  path = path_or_root r.path;
}

abbrev pub of_url : Resource → Option Url → Resource
of_url r none = r
of_url r (some u) =
    let path = path_or_root u.path in
    record { resource_id = u.host ++ path; host = u.host; path = path }

module _ (parse_url : Text → Option Url) where
  abbrev pub of_text : Resource → Text → Resource
  of_text r url = if is_empty url then r else of_url r (parse_url url)

  abbrev pub of_argument : Resource → List Text → Resource
  of_argument r [] = r
  of_argument r (arg ∷ args) = of_url r (parse_url arg)

  unfoldable pub extract_resource_info : List Text → Resource
  extract_resource_info [] = record {
    resource_id = codes "unknown";
    host = codes "unknown";
    path = codes "/";
  }
  extract_resource_info (name ∷ args) =
      let r : Resource = record {
        resource_id = join (codes " ") (name ∷ args);
        host = [];
        path = [];
      } in
      with_defaults (
        if same_text name (codes "curl")
        then of_text r (extract_url_from_curl args)
        else if same_text name (codes "wget")
        then of_text r (extract_url_from_wget args)
        else if same_text name (codes "http") || same_text name (codes "https")
        then of_argument r args
        else r)
