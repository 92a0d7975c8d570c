-- ===== src/Models/Scanner.antt =====
-- The models of a directory (internal/models/scanner.go). `os.ReadDir` and `filepath.Join` are arguments.
pub mod Lookup
use hive_mind_fusion.Prelude.{
  ℕ, ◌+◌, ◌*◌, ◌/◌, pos, Text, text, same, has_prefix, strip_prefix, to_lower, Bool, not, ◌||◌,
  List, [], ◌∷◌, Option, none, some, if◌then◌else◌, reverse,
}
use hive_mind_fusion.Vram.{Result, Format, estimate, parse_quant, kv_q8}

-- `info` is the size in bytes, `none` where `Info` fails.
pub record DirEntry : Type 0 where
  pub name : Text
  pub is_dir : Bool
  pub info : Option ℕ

pub record Model : Type 0 where
  pub name : Text
  pub filename : Text
  pub path : Text
  pub quant : Text
  pub size_mib : ℕ
  pub vram : Result

-- `ReadDir` (`none` for an error), `Join`, and `%.0f`.
pub record Files : Type 0 where
  pub read_dir : Text → Option (List DirEntry)
  pub join_path : Text → Text → Text
  pub format : Format

-- `strings.HasSuffix` and `strings.TrimSuffix`, with the suffix first.
unfoldable pub has_suffix : Text → Text → Bool
unfolding has_prefix
has_suffix p s = has_prefix (reverse p) (reverse s)

abbrev pub reverse_or : Text → Option Text → Text
reverse_or s none = s
reverse_or s (some t) = reverse t

unfoldable pub trim_suffix : Text → Text → Text
unfolding strip_prefix
trim_suffix p s = reverse_or s (strip_prefix (reverse p) (reverse s))

abbrev pub mib_of : ℕ → ℕ
mib_of bytes = bytes / (1024 * 1024)

unfoldable pub model_of : Files → Text → Text → ℕ → Model
unfolding estimate parse_quant trim_suffix text
model_of fs dir filename size = record {
  name = trim_suffix (text ".gguf") filename;
  filename = filename;
  path = fs.join_path dir filename;
  quant = parse_quant filename;
  size_mib = mib_of size;
  vram = estimate fs.format (pos (mib_of size)) (pos 8192) kv_q8 (pos 0);
}

abbrev pub add_model : Files → Text → Text → Option ℕ → List Model → List Model
add_model fs dir filename none ms = ms
add_model fs dir filename (some size) ms = model_of fs dir filename size ∷ ms

unfoldable pub is_gguf : DirEntry → Bool
unfolding has_suffix to_lower text
is_gguf e = not (e.is_dir || not (has_suffix (text ".gguf") (to_lower e.name)))

unfoldable pub models_of : Files → Text → List DirEntry → List Model
unfolding model_of is_gguf
models_of fs dir [] = []
models_of fs dir (e ∷ es) =
    let rest = models_of fs dir es in
    if is_gguf e then add_model fs dir e.name e.info rest else rest

abbrev pub some_models : Files → Text → Option (List DirEntry) → Option (List Model)
some_models fs dir none = none
some_models fs dir (some es) = some (models_of fs dir es)

unfoldable pub scan : Files → Text → Option (List Model)
unfolding models_of
scan fs dir = some_models fs dir (fs.read_dir dir)

unfoldable pub needle_of : Text → Text
unfolding trim_suffix to_lower text
needle_of name = trim_suffix (text ".gguf") (to_lower name)

unfoldable pub find_named : Text → List Model → Option Model
unfolding to_lower same
find_named needle [] = none
find_named needle (m ∷ ms) =
    let rest = find_named needle ms in if same (to_lower m.name) needle then some m else rest

pub data Found : Type 0 where
  found : Model → Found
  not_found : Found
  scan_failed : Found

abbrev pub found_of : Option Model → Found
found_of none = not_found
found_of (some m) = found m

abbrev pub find_in : Text → Option (List Model) → Found
find_in needle none = scan_failed
find_in needle (some ms) = found_of (find_named needle ms)

unfoldable pub find_by_name : Files → Text → Text → Found
unfolding scan find_named needle_of
find_by_name fs dir name = find_in (needle_of name) (scan fs dir)
