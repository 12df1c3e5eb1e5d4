-- ===== src/Tests/Transport.antt =====
-- The theorems on HTTP requests, bodies and sessions, at small inputs.
use ida_mcp.Prelude.{◌≡◌, ◌↔◌, ◌⊎◌, refl, none, some, inl, [], text_eq, nat_eq}
use ida_mcp.Text.{Text, lit, lower, strip}
use ida_mcp.Mcp.Host.{check_api_request, by_function, cors_localhost, passed}
use ida_mcp.Mcp.Host.Rebinding.{IsLoopback, NamesLoopback, FromLoopback, check-passed_iff}
use ida_mcp.Mcp.Body.{Inflate, Post, read_body, read_chunked}
use ida_mcp.Mcp.Body.Bounds.{
  IsWithin, ChunksWithin, IsSpent, read_body-IsWithin, read_chunked_bounds,
}

loopback : IsLoopback (lower (strip (lit "localhost")))
unfolding lit lower strip nat_eq
loopback = inl refl

abbrev nothing : Text
nothing = []

check-passed_iff_example :
    (check_api_request
        (by_function (cors_localhost some))
        (lit "localhost")
        (some (lit "evil.com"))
        nothing
      ≡ passed)
    ↔ (((some (lit "evil.com") ≡ none)
          ⊎ ((h : Text) × (some (lit "evil.com") ≡ some h) × NamesLoopback h))
        × ((nothing ≡ []) ⊎ FromLoopback some nothing))
check-passed_iff_example =
    check-passed_iff some (lit "localhost") loopback (some (lit "evil.com")) nothing

abbrev stored : Inflate
stored codec input max_length = some input

abbrev chunked : Post
chunked = record {
  transfer_encoding = lit "chunked";
  content_length = none;
  content_encoding = [];
  input = lit "3\r\nabc\r\n0\r\n\r\n";
}

read_body-IsWithin_example : IsWithin 5 (read_body stored 5 chunked)
read_body-IsWithin_example = read_body-IsWithin stored 5 chunked

read_chunked_bounds_example :
    (¬ IsSpent (read_chunked 5 (lit "3\r\nabc\r\n0\r\n\r\n")))
    × ChunksWithin 5 (read_chunked 5 (lit "3\r\nabc\r\n0\r\n\r\n"))
read_chunked_bounds_example = read_chunked_bounds 5 (lit "3\r\nabc\r\n0\r\n\r\n")
