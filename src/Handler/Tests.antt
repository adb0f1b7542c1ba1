-- ===== src/Handler/Tests.antt =====
-- Runs of the parser, and its theorem at a concrete stream.
use mini_nginx.Common.{◌≡◌, refl, some}
use mini_nginx.Python.Text.{codes, split}
use mini_nginx.Python.Utf8.{decode}
use mini_nginx.Handler.Lines.{drop_crlf, store_header}
use mini_nginx.Net.Reading.{content}
use mini_nginx.Samples.{ascii, world, request}
use mini_nginx.Handler.Parse.{parse_request}
use mini_nginx.Handler.Segments.{Reads, scan}
use mini_nginx.Handler.Requests.{headers_from}
use mini_nginx.Common.{arith, [], ◌∷◌}
use mini_nginx.Python.Text.{Text, strip}
use mini_nginx.Handler.Messages.{
  IsToken, IsHeader, request_of, message, written_headers, parse_request-message,
}
use mini_nginx.Handler.Results.{parse_bytes, parse_request-Reads}

parse_request-Reads_example :
    Reads
      (parse_request (codes "t1"))
      world
      (parse_bytes (codes "t1") (content world.client_in)).0
      (parse_bytes (codes "t1") (content world.client_in)).1
parse_request-Reads_example =
    parse_request-Reads (codes "t1") world (record { no_step = refl; no_total = refl }) tt

world_request : parse_bytes (codes "t1") (content world.client_in) ≡ (some request, codes "hi")
unfolding scan headers_from drop_crlf decode split store_header
world_request = refl

-- The words of the sample request.
post : IsToken (codes "POST")
post = record {
  ascii = omega arith;
  spaceless = (refl, (refl, (refl, (refl, tt))));
  solid = λ e. cc;
}

path : IsToken (codes "/a")
path = record { ascii = omega arith; spaceless = (refl, (refl, tt)); solid = λ e. cc }

version : IsToken (codes "HTTP/1.1")
version = record {
  ascii = omega arith;
  spaceless = (refl, (refl, (refl, (refl, (refl, (refl, (refl, (refl, tt))))))));
  solid = λ e. cc;
}

abbrev size_header : Text × Text
size_header = (codes "Content-Length", codes "2")

size_header-IsHeader : IsHeader size_header
unfolding strip
size_header-IsHeader = record {
  name = record {
    ascii = omega arith;
    spaceless = (
      refl,
      (
        refl,
        (
          refl,
          (
            refl,
            (refl, (refl, (refl, (refl, (refl, (refl, (refl, (refl, (refl, (refl, tt)))))))))),
          ),
        ),
      ),
    );
    solid = λ e. cc;
  };
  colonless = omega arith;
  value_ascii = omega arith;
  value_line = omega arith;
  value_stripped = refl;
}

world_message :
    content world.client_in
    ≡ message (codes "POST") (codes "/a") (codes "HTTP/1.1") (size_header ∷ []) (codes "hi")
unfolding written_headers
world_message = refl

parse_request-message_example :
    Reads
      (parse_request (codes "t1"))
      world
      (some
        (request_of (codes "t1") (codes "POST") (codes "/a") (codes "HTTP/1.1") (size_header ∷ [])))
      (codes "hi")
parse_request-message_example =
    parse_request-message (codes "t1") (codes "POST") (codes "/a") (codes "HTTP/1.1")
      (size_header ∷ []) (codes "hi") world post path version (size_header-IsHeader, tt)
      (record { no_step = refl; no_total = refl }) tt world_message
