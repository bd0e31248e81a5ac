-- ===== src/Paths.antt =====
-- std::path on Unix, on the bytes of a path.
use grpc_web_server.Base.{Str, text, Bool, false, not, [], ◌∷◌, ◌++◌, ◌==◌, if◌then◌else◌}

abbrev pub is_absolute : Str → Bool
is_absolute [] = false
is_absolute (c ∷ name) = c == b'/'

abbrev pub needs_separator : Str → Bool
needs_separator [] = false
needs_separator (c ∷ []) = not (c == b'/')
needs_separator (c ∷ d ∷ name) = needs_separator (d ∷ name)

-- `Path::join`: an absolute second path replaces the first.
unfoldable pub join : Str → Str → Str
unfolding text
join dir name =
    if is_absolute name
    then name
    else if needs_separator dir
    then dir ++ (text "/" ++ name)
    else dir ++ name
