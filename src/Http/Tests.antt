-- ===== src/Http/Tests.antt =====
-- The theorem on the HTTP server at a concrete request.
use c_c_linux_learning_code.Common.{◌+◌, ◌≡◌, refl, arith, some, [], ◌∷◌, ◌++◌, ◌>>=◌, length}
use c_c_linux_learning_code.Http.{ascii, Exchange, http_request, regular, line_end, http_response}
use c_c_linux_learning_code.Http.Served.{asking, ok_head, dotted, css, http_response_served}

abbrev fresh : Exchange
fresh = record {
  method = 0;
  resource = [];
  ret_code = 0;
  content_type = [];
  buffer = [];
  length = 0;
}

-- A request for "a.css", of which the file has 7 bytes.
http_response_served_example :
    (q : Exchange) × (http_request (asking (ascii "a.css") (ascii "H") ++ (line_end ++ [])) fresh
        >>= http_response (λ n. (48 + n) ∷ []) (λ name. regular 7)
      ≡ some q)
    × (q.ret_code ≡ 200)
    × (q.buffer ≡ ok_head (ascii "text/css") (ascii "7"))
    × (q.length ≡ length q.buffer)
http_response_served_example =
    http_response_served (λ n. (48 + n) ∷ []) (λ name. regular 7) (ascii "a.css") (ascii "text/css")
      (ascii "H") [] fresh 7
      (omega arith, (omega arith, (omega arith, (omega arith, (omega arith, tt)))))
      (omega arith, (omega arith, (omega arith, (omega arith, (omega arith, tt)))))
      (omega arith, tt) (omega arith)
      (dotted (ascii "a") (ascii "css") refl (omega arith, tt) (css refl refl)) (omega arith) refl
