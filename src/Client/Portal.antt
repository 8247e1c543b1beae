-- ===== src/Client/Portal.antt =====
-- StartFilebrowserService of src/joebot/client/filebrowser_task.go.
use joebot.Prelude.{
  ℕ, Bool, true, false, Option, none, some, [], ◌∷◌, ◌++◌, GoString, str, message, Result, ok, err,
  ◌>>=◌,
}
use joebot.Strings.{split, itoa}

pub record Permissions : Type 0 where
  pub admin : Bool
  pub execute : Bool
  pub create : Bool
  pub rename : Bool
  pub modify : Bool
  pub delete : Bool
  pub share : Bool
  pub download : Bool

-- The fields of the settings that are not their zero value.
pub record PortalSettings : Type 0 where
  pub key : ℕ
  pub scope : GoString
  pub locale : GoString
  pub perm : Permissions

pub record PortalServer : Type 0 where
  pub root : GoString
  pub port : GoString
  pub joebot_web_portal_host : GoString
  pub joebot_web_portal_port : GoString

-- The user after `set.Defaults.Apply(user)` and the assignment that follows.
pub record PortalUser : Type 0 where
  pub username : GoString
  pub password : GoString
  pub lock_password : Bool
  pub scope : GoString
  pub locale : GoString
  pub perm : Permissions

-- What is saved in the store; the errors of saving are dropped.
pub record Saved : Type 0 where
  pub settings : PortalSettings
  pub server : PortalServer
  pub user : PortalUser

-- The calls of the system and the Filebrowser library; a handle is a number, a directory a text.
pub record Filebrowser : Type 0 where
  pub own_directory : Result GoString
  pub generate_key : Result ℕ
  pub temp_dir : Result GoString
  pub open_db : GoString → Result ℕ
  pub new_storage : ℕ → Result ℕ
  pub assets : Result ℕ
  pub new_handler : Option GoString → ℕ → Saved → ℕ → Result ℕ

-- `if err != nil { return nil, errors.New(text) }`.
abbrev pub replaced {ℓ} : {A : Type ℓ} → Result A → GoString → Result A
replaced (ok a) text = ok a
replaced (err e) text = err (message text)

abbrev pub user_permissions : Permissions
user_permissions = record {
  admin = false;
  execute = true;
  create = true;
  rename = true;
  modify = true;
  delete = true;
  share = true;
  download = true;
}

-- The root of the file system that the program stands in.
abbrev pub scope_of : GoString → GoString
scope_of directory = elim (split 47 directory) [ [] ↦ str "/" | first ∷ rest ↦ first ++ str "/" ]

unfoldable pub saved : ℕ → GoString → GoString → GoString → ℕ → Saved
unfolding split
saved key directory port joebot_web_host joebot_web_port =
    let set : PortalSettings = record {
      key = key;
      scope = scope_of directory;
      locale = str "en";
      perm = user_permissions;
    } in
    record {
      settings = set;
      server = record {
        root = directory;
        port = port;
        joebot_web_portal_host = joebot_web_host;
        joebot_web_portal_port = itoa joebot_web_port;
      };
      user = record {
        username = str "admin";
        password = str "admin";
        lock_password = false;
        scope = scope_of directory;
        locale = str "en";
        perm = record user_permissions { admin = true };
      };
    }

-- The directory of the cache, none for the cache that keeps nothing.
abbrev pub cache_of : Result GoString → Option GoString
cache_of (ok directory) = some directory
cache_of (err e) = none

abbrev pub database_path : Option GoString → GoString
database_path none = str "database"
database_path (some directory) = directory ++ str "/database"

-- The address of the server that is started.
unfoldable pub start_filebrowser_service : Filebrowser → GoString → GoString → ℕ → Result GoString
unfolding saved
start_filebrowser_service fb port joebot_web_host joebot_web_port = do
  directory ← replaced fb.own_directory (str "Unable To Get Scope")
  key ← fb.generate_key
  db ←
      replaced (fb.open_db (database_path (cache_of fb.temp_dir)))
        (str "Failed To Create FileBrowser DB")
  store ← replaced (fb.new_storage db) (str "Failed To Create FileBrowser DB Storage")
  assets ← replaced fb.assets (str "Failed To Create FileBrowser Assets FS")
  handler ←
      replaced
        (fb.new_handler (cache_of fb.temp_dir) store
          (saved key directory port joebot_web_host joebot_web_port) assets)
        (str "Failed To Create FileBrowser Handler")
  ok (str ":" ++ port)
