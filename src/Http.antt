-- ===== src/Http.antt =====
-- 2.1.3http/httpserver.c: the request line that the server reads and the answer that it writes.
-- Texts are lists of bytes; an access behind an array is a fault. What the file system says of a
-- resource, and the decimal text of a size, are arguments. The reactor is that of the websocket
-- server, as is readline.
pub mod Served
mod Tests
use Prim.Native.Char.{code}
use Prim.Native.String.{String}
use c_c_linux_learning_code.Common.{
  same_bytes, Bytes, drop, ℕ, zero, suc, ◌+◌, Bool, true, false, ◌&&◌, ◌||◌, Option, none, some,
  List, [], ◌∷◌, ◌++◌, ltb, leb, ◌==◌, if◌then◌else◌, ◌>>=◌, length,
}
use c_c_linux_learning_code.Websocket.Server.{readline, contains}

-- The code points of an ASCII text.
abbrev pub ascii : String → Bytes
ascii String.[] = []
ascii (String.◌∷◌ c s) = code c ∷ ascii s

-- The fields of an event that requests and answers use; the strings in `resource`,
-- `Content_Type` and `buffer`. The method 0 is GET.
pub record Exchange : Type 0 where
  pub method : ℕ
  pub resource : Bytes
  pub ret_code : ℕ
  pub content_type : Bytes
  pub buffer : Bytes
  pub length : ℕ

-- The first line, or the whole of a text without a line end.
unfoldable pub line_or : Bytes → Option (Bytes × Bytes) → Bytes
line_or text none = text
line_or text (some (line, rest)) = line

-- What readline leaves in the array of 1024 bytes.
unfoldable pub first_line : Bytes → Option Bytes
unfolding readline line_or
first_line text =
    let line = line_or text (readline text) in if leb 1024 (length line) then none else some line

-- The bytes before the first blank; the search for it runs out of the array where there is none.
unfoldable pub until_blank : Bytes → Option Bytes
until_blank [] = none
until_blank (c ∷ cs) =
    let rest = until_blank cs >>= λ path. some (c ∷ path) in if c == 32 then some [] else rest

-- What follows the first dot.
unfoldable pub type_in : Bytes → Option Bytes
type_in [] = none
type_in (c ∷ cs) = let rest = type_in cs in if c == 46 then some cs else rest

-- `sprintf` into Content_Type, or what it held before.
unfoldable pub content_of : Bytes → Bytes → Bytes
unfolding type_in same_bytes
content_of path before = elim (type_in path) [
  | none ↦ ascii "text/html"
  | some type ↦
      if same_bytes type (ascii "html") || same_bytes type (ascii "css")
      then ascii "text/" ++ type
      else if same_bytes type (ascii "jpg")
          || (same_bytes type (ascii "png") || same_bytes type (ascii "ico"))
      then ascii "image/" ++ type
      else before
]

-- The path begins behind the five bytes of `GET /`.
unfoldable pub http_request : Bytes → Exchange → Option Exchange
unfolding first_line contains until_blank content_of
http_request text ev = do
  line ← first_line text
  let get : Option Exchange = do
    path ← until_blank (drop 5 line)
    some (record ev {
      method = 0;
      resource = ascii "./html/" ++ path;
      content_type = content_of path ev.content_type;
    })
  if contains (ascii "GET") line then get else some ev

-- What open and fstat say of the resource.
pub data File : Type 0 where
  missing directory : File
  regular : ℕ → File
  special : File

abbrev pub line_end : Bytes
line_end = 13 ∷ 10 ∷ []

abbrev pub not_found_body : Bytes
not_found_body =
    ascii "<html><head><title>404 Not Found</title></head><body><H1>404</H1></body></html>"
    ++ (line_end ++ line_end)

-- The head of an answer, of its first line, type and length.
unfoldable pub head_of : Bytes → Bytes → Bytes → Bytes
head_of status type size =
    ascii "HTTP/1.1 "
    ++ (status
        ++ (line_end
            ++ (ascii "Content-Type: "
                ++ (type
                    ++ (ascii ";charset=utf-8"
                        ++ (line_end
                            ++ (ascii "Content-Length: " ++ (size ++ (line_end ++ line_end)))))))))

-- sprintf into the buffer of 4096 bytes, with the end of the string.
unfoldable pub answer_with : Exchange → ℕ → Bytes → Option Exchange
answer_with ev code text =
    if leb 4096 (length text)
    then none
    else some (record ev { ret_code = code; buffer = text; length = length text })

unfoldable pub not_found : Exchange → Option Exchange
unfolding head_of answer_with
not_found ev =
    answer_with ev 404
      (head_of (ascii "404 Not Found") ev.content_type (ascii "83") ++ not_found_body)

unfoldable pub respond : (ℕ → Bytes) → Exchange → File → Option Exchange
unfolding not_found head_of answer_with
respond decimal ev missing = not_found ev
respond decimal ev directory = not_found ev
respond decimal ev (regular size) =
    answer_with ev 200 (head_of (ascii "200 OK") ev.content_type (decimal size))
respond decimal ev special = some (record ev { buffer = [] })

unfoldable pub http_response : (ℕ → Bytes) → (Bytes → File) → Exchange → Option Exchange
unfolding respond
http_response decimal files ev = respond decimal ev (files ev.resource)
