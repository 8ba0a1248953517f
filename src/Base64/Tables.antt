-- ===== src/Base64/Tables.antt =====
-- The tables of src/cevent/util/base64.c. In those of the decoder 77 marks a byte of no digit; behind
-- the first 128 entries all are 77.
use cevent_sample.Prelude.{ℕ, List, [], ◌∷◌, ◌++◌, replicate}

-- "A…Za…z0…9+/" and "A…Za…z0…9-_"
unfoldable pub encode_basis : List ℕ
encode_basis =
    65 ∷ 66 ∷ 67 ∷ 68 ∷ 69 ∷ 70 ∷ 71 ∷ 72 ∷ 73 ∷ 74 ∷ 75 ∷ 76 ∷ 77 ∷ 78 ∷ 79 ∷ 80 ∷ 81 ∷ 82 ∷ 83
    ∷ 84 ∷ 85 ∷ 86 ∷ 87 ∷ 88 ∷ 89 ∷ 90 ∷ 97 ∷ 98 ∷ 99 ∷ 100 ∷ 101 ∷ 102 ∷ 103 ∷ 104 ∷ 105 ∷ 106
    ∷ 107 ∷ 108 ∷ 109 ∷ 110 ∷ 111 ∷ 112 ∷ 113 ∷ 114 ∷ 115 ∷ 116 ∷ 117 ∷ 118 ∷ 119 ∷ 120 ∷ 121 ∷ 122
    ∷ 48 ∷ 49 ∷ 50 ∷ 51 ∷ 52 ∷ 53 ∷ 54 ∷ 55 ∷ 56 ∷ 57 ∷ 43 ∷ 47 ∷ []

unfoldable pub encode_basis_url : List ℕ
encode_basis_url =
    65 ∷ 66 ∷ 67 ∷ 68 ∷ 69 ∷ 70 ∷ 71 ∷ 72 ∷ 73 ∷ 74 ∷ 75 ∷ 76 ∷ 77 ∷ 78 ∷ 79 ∷ 80 ∷ 81 ∷ 82 ∷ 83
    ∷ 84 ∷ 85 ∷ 86 ∷ 87 ∷ 88 ∷ 89 ∷ 90 ∷ 97 ∷ 98 ∷ 99 ∷ 100 ∷ 101 ∷ 102 ∷ 103 ∷ 104 ∷ 105 ∷ 106
    ∷ 107 ∷ 108 ∷ 109 ∷ 110 ∷ 111 ∷ 112 ∷ 113 ∷ 114 ∷ 115 ∷ 116 ∷ 117 ∷ 118 ∷ 119 ∷ 120 ∷ 121 ∷ 122
    ∷ 48 ∷ 49 ∷ 50 ∷ 51 ∷ 52 ∷ 53 ∷ 54 ∷ 55 ∷ 56 ∷ 57 ∷ 45 ∷ 95 ∷ []

unfoldable pub decode_basis : List ℕ
decode_basis =
    (77 ∷ 77 ∷ 77 ∷ 77 ∷ 77 ∷ 77 ∷ 77 ∷ 77 ∷ 77 ∷ 77 ∷ 77 ∷ 77 ∷ 77 ∷ 77 ∷ 77 ∷ 77 ∷ 77 ∷ 77 ∷ 77
      ∷ 77 ∷ 77 ∷ 77 ∷ 77 ∷ 77 ∷ 77 ∷ 77 ∷ 77 ∷ 77 ∷ 77 ∷ 77 ∷ 77 ∷ 77 ∷ 77 ∷ 77 ∷ 77 ∷ 77 ∷ 77 ∷ 77
      ∷ 77 ∷ 77 ∷ 77 ∷ 77 ∷ 77 ∷ 62 ∷ 77 ∷ 77 ∷ 77 ∷ 63 ∷ 52 ∷ 53 ∷ 54 ∷ 55 ∷ 56 ∷ 57 ∷ 58 ∷ 59 ∷ 60
      ∷ 61 ∷ 77 ∷ 77 ∷ 77 ∷ 77 ∷ 77 ∷ 77 ∷ 77 ∷ 0 ∷ 1 ∷ 2 ∷ 3 ∷ 4 ∷ 5 ∷ 6 ∷ 7 ∷ 8 ∷ 9 ∷ 10 ∷ 11 ∷ 12
      ∷ 13 ∷ 14 ∷ 15 ∷ 16 ∷ 17 ∷ 18 ∷ 19 ∷ 20 ∷ 21 ∷ 22 ∷ 23 ∷ 24 ∷ 25 ∷ 77 ∷ 77 ∷ 77 ∷ 77 ∷ 77 ∷ 77
      ∷ 26 ∷ 27 ∷ 28 ∷ 29 ∷ 30 ∷ 31 ∷ 32 ∷ 33 ∷ 34 ∷ 35 ∷ 36 ∷ 37 ∷ 38 ∷ 39 ∷ 40 ∷ 41 ∷ 42 ∷ 43 ∷ 44
      ∷ 45 ∷ 46 ∷ 47 ∷ 48 ∷ 49 ∷ 50 ∷ 51 ∷ 77 ∷ 77 ∷ 77 ∷ 77 ∷ 77 ∷ [])
    ++ replicate 128 77

unfoldable pub decode_basis_url : List ℕ
decode_basis_url =
    (77 ∷ 77 ∷ 77 ∷ 77 ∷ 77 ∷ 77 ∷ 77 ∷ 77 ∷ 77 ∷ 77 ∷ 77 ∷ 77 ∷ 77 ∷ 77 ∷ 77 ∷ 77 ∷ 77 ∷ 77 ∷ 77
      ∷ 77 ∷ 77 ∷ 77 ∷ 77 ∷ 77 ∷ 77 ∷ 77 ∷ 77 ∷ 77 ∷ 77 ∷ 77 ∷ 77 ∷ 77 ∷ 77 ∷ 77 ∷ 77 ∷ 77 ∷ 77 ∷ 77
      ∷ 77 ∷ 77 ∷ 77 ∷ 77 ∷ 77 ∷ 77 ∷ 77 ∷ 62 ∷ 77 ∷ 77 ∷ 52 ∷ 53 ∷ 54 ∷ 55 ∷ 56 ∷ 57 ∷ 58 ∷ 59 ∷ 60
      ∷ 61 ∷ 77 ∷ 77 ∷ 77 ∷ 77 ∷ 77 ∷ 77 ∷ 77 ∷ 0 ∷ 1 ∷ 2 ∷ 3 ∷ 4 ∷ 5 ∷ 6 ∷ 7 ∷ 8 ∷ 9 ∷ 10 ∷ 11 ∷ 12
      ∷ 13 ∷ 14 ∷ 15 ∷ 16 ∷ 17 ∷ 18 ∷ 19 ∷ 20 ∷ 21 ∷ 22 ∷ 23 ∷ 24 ∷ 25 ∷ 77 ∷ 77 ∷ 77 ∷ 77 ∷ 63 ∷ 77
      ∷ 26 ∷ 27 ∷ 28 ∷ 29 ∷ 30 ∷ 31 ∷ 32 ∷ 33 ∷ 34 ∷ 35 ∷ 36 ∷ 37 ∷ 38 ∷ 39 ∷ 40 ∷ 41 ∷ 42 ∷ 43 ∷ 44
      ∷ 45 ∷ 46 ∷ 47 ∷ 48 ∷ 49 ∷ 50 ∷ 51 ∷ 77 ∷ 77 ∷ 77 ∷ 77 ∷ 77 ∷ [])
    ++ replicate 128 77
