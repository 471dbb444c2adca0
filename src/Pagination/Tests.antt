-- ===== src/Pagination/Tests.antt =====
-- pkg/pagination on small inputs.
use ridesharing.Prelude.{ℕ, suc, ◌*◌, ◌<◌, ◌≡◌, ◌↔◌, refl, true, arith, List, [], ◌∷◌, length}
use ridesharing.Pagination.{Params, params_of, pos, negsuc, parse_int_default, parse, new_response}
use ridesharing.Pagination.Pages.{pages, rows_of, pages_whole}

abbrev third_page : Params
third_page = record { page = 3; limit = 20; offset = pos 40 }

parse-third : parse "3" "" ≡ third_page
unfolding parse parse_int_default
parse-third = refl

-- A page above the largest int is no int.
parse-huge : parse "9223372036854775808" "-5" ≡ record { page = 1; limit = 20; offset = pos 0 }
unfolding parse parse_int_default
parse-huge = refl

-- The offset of a page far beyond 2 ^ 56 wraps around to a negative int.
offset-wraps : (parse "92233720368547760" "100").offset ≡ negsuc 9_223_372_036_854_775_715
unfolding parse parse_int_default
offset-wraps = refl

abbrev two_rows : Params
two_rows = record { page = 1; limit = 2; offset = pos 0 }

abbrev rows : List ℕ
rows = 5 ∷ 6 ∷ 7 ∷ []

pages_whole_example :
    let r = new_response two_rows (length rows) in
    (pages 2 r.total_pages 1 rows ≡ rows)
    × ((k : ℕ) → k < r.total_pages → 0 < length (rows_of (params_of (suc k) 2) rows))
    × ((r.has_more ≡ true) ↔ (two_rows.page * 2 < length rows))
pages_whole_example = pages_whole two_rows rows (omega arith) (omega arith)
