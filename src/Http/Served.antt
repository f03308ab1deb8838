-- ===== src/Http/Served.antt =====
-- The answer to a request for a path.
use c_c_linux_learning_code.Common.{
  ◌∙◌, none, same_bytes, ap, All-append, Bytes, drop, ℕ, ◌+◌, ◌≤◌, ◌<◌, ◌≡◌, ◌≢◌, refl, arith,
  false, some, [], ◌∷◌, ◌++◌, leb, ◌>>=◌, length, length-append, All, eq-false, leb-false,
}
use c_c_linux_learning_code.Websocket.Server.{contains, starts_with}
use c_c_linux_learning_code.Websocket.Lines.{IsLine, readline-append}
use c_c_linux_learning_code.Http.{
  type_in, ascii, Exchange, line_or, first_line, until_blank, content_of, http_request, File,
  regular, line_end, head_of, answer_with, respond, http_response,
}

-- The line that asks for a path.
abbrev pub asking : Bytes → Bytes → Bytes
asking path version = ascii "GET /" ++ (path ++ 32 ∷ version)

until_blank-append :
    (path rest : Bytes) → All (λ c. c ≢ 32) path → until_blank (path ++ 32 ∷ rest) ≡ some path
unfolding until_blank
until_blank-append [] rest h = refl
until_blank-append (c ∷ path) rest h = rw (eq-false h.0, until_blank-append path rest h.1) refl

http_request_get :
    (path version more : Bytes) (ev : Exchange)
    → All (λ c. c ≢ 32) path
    → IsLine path
    → IsLine version
    → length (asking path version) < 1024
    → http_request (asking path version ++ (line_end ++ more)) ev
      ≡ some (record ev {
        method = 0;
        resource = ascii "./html/" ++ path;
        content_type = content_of path ev.content_type;
      })
unfolding http_request first_line line_or contains starts_with drop
http_request_get path version more ev no_blank line line' short =
    let whole : IsLine (asking path version) = (
      omega arith,
      (
        omega arith,
        (
          omega arith,
          (
            omega arith,
            (omega arith, All-append (λ c. c ≢ 13) path (32 ∷ version) line (omega arith, line')),
          ),
        ),
      ),
    ) in
    rw
      (
        readline-append (asking path version) more whole,
        leb-false short,
        until_blank-append path version no_blank,
      )
      refl

-- The file extensions that the server knows, and the type that it announces for each.
pub data ExtensionType (ext type : Bytes) : Type 0 where
  html : ext ≡ ascii "html" → type ≡ ascii "text/html" → ExtensionType ext type
  css : ext ≡ ascii "css" → type ≡ ascii "text/css" → ExtensionType ext type
  jpg : ext ≡ ascii "jpg" → type ≡ ascii "image/jpg" → ExtensionType ext type
  png : ext ≡ ascii "png" → type ≡ ascii "image/png" → ExtensionType ext type
  ico : ext ≡ ascii "ico" → type ≡ ascii "image/ico" → ExtensionType ext type

-- The type of a path: by what follows the first dot, or text/html without a dot.
pub data PathType (path type : Bytes) : Type 0 where
  plain : All (λ c. c ≢ 46) path → type ≡ ascii "text/html" → PathType path type
  dotted :
      (name ext : Bytes)
      → path ≡ name ++ 46 ∷ ext
      → All (λ c. c ≢ 46) name
      → ExtensionType ext type
      → PathType path type

type_in-plain : (path : Bytes) → All (λ c. c ≢ 46) path → type_in path ≡ none
unfolding type_in
type_in-plain [] h = refl
type_in-plain (c ∷ path) h = rw (eq-false h.0, type_in-plain path h.1) refl

type_in-append : (name ext : Bytes) → All (λ c. c ≢ 46) name → type_in (name ++ 46 ∷ ext) ≡ some ext
unfolding type_in
type_in-append [] ext h = refl
type_in-append (c ∷ name) ext h = rw (eq-false h.0, type_in-append name ext h.1) refl

-- `content_of` of a path in which type_in finds `ext`.
content_of-ext :
    (path ext type before : Bytes)
    → type_in path ≡ some ext
    → ExtensionType ext type
    → content_of path before ≡ type
unfolding content_of same_bytes
content_of-ext path ext type before e (html x t) = rw (content_of, e, x, t) refl
content_of-ext path ext type before e (css x t) = rw (content_of, e, x, t) refl
content_of-ext path ext type before e (jpg x t) = rw (content_of, e, x, t) refl
content_of-ext path ext type before e (png x t) = rw (content_of, e, x, t) refl
content_of-ext path ext type before e (ico x t) = rw (content_of, e, x, t) refl

content_of-PathType :
    (path type before : Bytes) → PathType path type → content_of path before ≡ type
unfolding content_of
content_of-PathType path type before (plain h t) = rw (content_of, type_in-plain path h, t) refl
content_of-PathType path type before (dotted name ext e h t) =
    content_of-ext path ext type before (ap type_in e ∙ type_in-append name ext h) t

ExtensionType-short : (ext type : Bytes) → ExtensionType ext type → length type ≤ 9
ExtensionType-short ext type (html x t) = rw t (omega arith)
ExtensionType-short ext type (css x t) = rw t (omega arith)
ExtensionType-short ext type (jpg x t) = rw t (omega arith)
ExtensionType-short ext type (png x t) = rw t (omega arith)
ExtensionType-short ext type (ico x t) = rw t (omega arith)

PathType-short : (path type : Bytes) → PathType path type → length type ≤ 9
PathType-short path type (plain h t) = rw t (omega arith)
PathType-short path type (dotted name ext e h t) = ExtensionType-short ext type t

-- The head of an answer with the code 200.
abbrev pub ok_head : Bytes → Bytes → Bytes
ok_head type size =
    ascii "HTTP/1.1 200 OK\r\nContent-Type: "
    ++ (type ++ (ascii ";charset=utf-8\r\nContent-Length: " ++ (size ++ 13 ∷ 10 ∷ 13 ∷ 10 ∷ [])))

ok_head-size : (type size : Bytes) → length (ok_head type size) ≤ length type + length size + 100
ok_head-size type size =
    let last = length-append size (13 ∷ 10 ∷ 13 ∷ 10 ∷ []) in
    let first =
      length-append type
        (ascii ";charset=utf-8\r\nContent-Length: " ++ (size ++ 13 ∷ 10 ∷ 13 ∷ 10 ∷ [])) in
    omega arith

-- For a first line `GET /` with a path, a blank and any rest, of less than 1024 bytes, without
-- blanks in the path or a byte 13 in path and rest, where the path has no dot or behind its first
-- dot html, css, jpg, png or ico, the path below ./html/ is a regular file and its size has at most
-- 20 digits: http_request and then http_response end without a fault, with the code 200, a head
-- with text/html, text/css, image/jpg, image/png or image/ico, for a path without a dot text/html,
-- and the size of the file in the buffer, and its length. The path may go upwards by `..`.
pub http_response_served :
    (decimal : ℕ → Bytes) (files : Bytes → File) (path type version more : Bytes) (ev : Exchange)
    (n : ℕ)
    → All (λ c. c ≢ 32) path
    → IsLine path
    → IsLine version
    → length (asking path version) < 1024
    → PathType path type
    → length (decimal n) ≤ 20
    → files (ascii "./html/" ++ path) ≡ regular n
    → (q : Exchange) × (http_request (asking path version ++ (line_end ++ more)) ev
          >>= http_response decimal files
        ≡ some q)
      × (q.ret_code ≡ 200)
      × (q.buffer ≡ ok_head type (decimal n))
      × (q.length ≡ length q.buffer)
unfolding http_response respond answer_with head_of
http_response_served decimal files path type version more ev n no_blank line line' short typed
      digits file =
    let known = PathType-short path type typed in
    let size = ok_head-size type (decimal n) in
    let fits : leb 4096 (length (ok_head type (decimal n))) ≡ false = leb-false (omega arith) in
    (
      record ev {
        method = 0;
        resource = ascii "./html/" ++ path;
        content_type = type;
        ret_code = 200;
        buffer = ok_head type (decimal n);
        length = length (ok_head type (decimal n));
      },
      rw
          (
            http_request_get path version more ev no_blank line line' short,
            content_of-PathType path type ev.content_type typed,
            file,
            fits,
          )
          refl,
      refl,
      refl,
      refl,
    )
