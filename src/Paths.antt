-- ===== src/Paths.antt =====
-- Paths of scripts/durable_recovery.py, after `resolve(strict=True)` of their directory.
use Prim.Native.String.{◌++◌}
use moon_mqtt_client.Base.{String, Bool, true, ◌&&◌, ◌≡◌, str_eq, str_eq_iff, str_eq_refl, arith}

-- `str(path)` is `dir/name`; `path.parent` is `dir` and `path.name` is `name`.
pub record FilePath : Type 0 where
  pub dir : String
  pub name : String

abbrev pub path_eq : FilePath → FilePath → Bool
path_eq p q = str_eq p.dir q.dir && str_eq p.name q.name

-- `Path(str(path) + suffix)`
abbrev pub with_suffix : FilePath → String → FilePath
with_suffix p suffix = record p { name = p.name ++ suffix }

pub path_eq→eq : (p q : FilePath) → path_eq p q ≡ true → p ≡ q
path_eq→eq p q h = ground (arith, str_eq_iff p.dir q.dir, str_eq_iff p.name q.name)

pub path_eq_refl : (p : FilePath) → path_eq p p ≡ true
path_eq_refl p = ground (arith, str_eq_refl p.dir, str_eq_refl p.name)
