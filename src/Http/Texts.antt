-- ===== src/Http/Texts.antt =====
-- The texts that the client of Http.antt writes into a request, as their characters.
use coconut.Base.{[], ◌∷◌, Bytes}

-- Host
abbrev pub host_key : Bytes
host_key = 72 ∷ 111 ∷ 115 ∷ 116 ∷ []

-- Content-Length
abbrev pub content_length_key : Bytes
content_length_key =
    67 ∷ 111 ∷ 110 ∷ 116 ∷ 101 ∷ 110 ∷ 116 ∷ 45 ∷ 76 ∷ 101 ∷ 110 ∷ 103 ∷ 116 ∷ 104 ∷ []

-- Content-Type
abbrev pub content_type_key : Bytes
content_type_key = 67 ∷ 111 ∷ 110 ∷ 116 ∷ 101 ∷ 110 ∷ 116 ∷ 45 ∷ 84 ∷ 121 ∷ 112 ∷ 101 ∷ []

-- application/x-www-form-urlencoded
abbrev pub form_urlencoded : Bytes
form_urlencoded =
    97 ∷ 112 ∷ 112 ∷ 108 ∷ 105 ∷ 99 ∷ 97 ∷ 116 ∷ 105 ∷ 111 ∷ 110 ∷ 47 ∷ 120 ∷ 45 ∷ 119 ∷ 119 ∷ 119
    ∷ 45 ∷ 102 ∷ 111 ∷ 114 ∷ 109 ∷ 45 ∷ 117 ∷ 114 ∷ 108 ∷ 101 ∷ 110 ∷ 99 ∷ 111 ∷ 100 ∷ 101 ∷ 100
    ∷ []

-- multipart/form-data; boundary=
abbrev pub multipart_form : Bytes
multipart_form =
    109 ∷ 117 ∷ 108 ∷ 116 ∷ 105 ∷ 112 ∷ 97 ∷ 114 ∷ 116 ∷ 47 ∷ 102 ∷ 111 ∷ 114 ∷ 109 ∷ 45 ∷ 100 ∷ 97
    ∷ 116 ∷ 97 ∷ 59 ∷ 32 ∷ 98 ∷ 111 ∷ 117 ∷ 110 ∷ 100 ∷ 97 ∷ 114 ∷ 121 ∷ 61 ∷ []

-- <CR><LF>Content-Disposition: form-data; name="
abbrev pub name_head : Bytes
name_head =
    13 ∷ 10 ∷ 67 ∷ 111 ∷ 110 ∷ 116 ∷ 101 ∷ 110 ∷ 116 ∷ 45 ∷ 68 ∷ 105 ∷ 115 ∷ 112 ∷ 111 ∷ 115 ∷ 105
    ∷ 116 ∷ 105 ∷ 111 ∷ 110 ∷ 58 ∷ 32 ∷ 102 ∷ 111 ∷ 114 ∷ 109 ∷ 45 ∷ 100 ∷ 97 ∷ 116 ∷ 97 ∷ 59 ∷ 32
    ∷ 110 ∷ 97 ∷ 109 ∷ 101 ∷ 61 ∷ 34 ∷ []

-- "<CR><LF><CR><LF>
abbrev pub string_tail : Bytes
string_tail = 34 ∷ 13 ∷ 10 ∷ 13 ∷ 10 ∷ []

-- "; filename="
abbrev pub filename_head : Bytes
filename_head = 34 ∷ 59 ∷ 32 ∷ 102 ∷ 105 ∷ 108 ∷ 101 ∷ 110 ∷ 97 ∷ 109 ∷ 101 ∷ 61 ∷ 34 ∷ []

-- "<CR><LF>Content-Type: "application/octet-stream"<CR><LF><CR><LF>
abbrev pub file_tail : Bytes
file_tail =
    34 ∷ 13 ∷ 10 ∷ 67 ∷ 111 ∷ 110 ∷ 116 ∷ 101 ∷ 110 ∷ 116 ∷ 45 ∷ 84 ∷ 121 ∷ 112 ∷ 101 ∷ 58 ∷ 32 ∷ 34
    ∷ 97 ∷ 112 ∷ 112 ∷ 108 ∷ 105 ∷ 99 ∷ 97 ∷ 116 ∷ 105 ∷ 111 ∷ 110 ∷ 47 ∷ 111 ∷ 99 ∷ 116 ∷ 101 ∷ 116
    ∷ 45 ∷ 115 ∷ 116 ∷ 114 ∷ 101 ∷ 97 ∷ 109 ∷ 34 ∷ 13 ∷ 10 ∷ 13 ∷ 10 ∷ []

-- <CR><LF>
abbrev pub crlf : Bytes
crlf = 13 ∷ 10 ∷ []

-- --
abbrev pub dashes : Bytes
dashes = 45 ∷ 45 ∷ []
