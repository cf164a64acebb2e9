-- ===== src/Server/Page.antt =====
-- oauth.py: the page of the login form, and where the browser goes from there
pub mod Laws
use cisco_ise_mcp.Prelude.{String, [], eqb, if◌then◌else◌, ℕ, ◌++◌, ◌∷◌}
use cisco_ise_mcp.Dict.{Dict}
use cisco_ise_mcp.Server.{get_text}
use cisco_ise_mcp.Text.{Text, lit}

abbrev pub escape_char : ℕ → Text
escape_char c =
    if eqb c b'&'
    then lit "&amp;"
    else if eqb c b'<'
    then lit "&lt;"
    else if eqb c b'>'
    then lit "&gt;"
    else if eqb c 34
    then lit "&quot;"
    else if eqb c 39
    then lit "&#x27;"
    else c ∷ []

-- `html.escape(s)`
unfoldable pub escape : Text → Text
unfolding lit
escape [] = []
escape (c ∷ s) = escape_char c ++ escape s

-- The page, as the code writes it, in parts.
abbrev pub page_head : Text
page_head =
    lit "<!doctype html><html><head><meta charset=\"utf-8\">\n"
    ++ (lit "<meta name=\"viewport\" content=\"width=device-width, initial-scale=1\">\n"
        ++ (lit "<title>Cisco ISE MCP — Sign in</title>\n"))

abbrev pub page_style : Text
page_style =
    lit "<style>\n"
    ++ (lit " body{font-family:Segoe UI,Arial,sans-serif;background:#f3f2f1;margin:0}\n"
        ++ (lit
              " .card{max-width:360px;margin:8vh auto;background:#fff;padding:28px;border-radius:8px;\n"
            ++ (lit "   box-shadow:0 2px 12px rgba(0,0,0,.12)}\n"
                ++ (lit
                      " h1{font-size:18px;margin:0 0 4px} p.sub{color:#605e5c;font-size:13px;margin:0 0 18px}\n"
                    ++ (lit " label{display:block;font-size:13px;margin:12px 0 4px}\n"
                        ++ (lit
                              " input[type=text],input[type=password]{width:100%;box-sizing:border-box;padding:9px;\n"
                            ++ (lit
                                  "   border:1px solid #c8c6c4;border-radius:4px;font-size:14px}\n"
                                ++ (lit
                                      " button{margin-top:18px;width:100%;padding:10px;background:#0f6cbd;color:#fff;border:0;\n"
                                    ++ (lit "   border-radius:4px;font-size:14px;cursor:pointer}\n"
                                        ++ (lit
                                            " .err{color:#a4262c;font-size:13px;background:#fde7e9;padding:8px;border-radius:4px}\n"))))))))))

abbrev pub page_card : Text
page_card =
    lit "</style></head><body><div class=\"card\">\n"
    ++ (lit "<h1>Cisco ISE MCP</h1><p class=\"sub\">Sign in with your Cisco ISE credentials.</p>\n")

abbrev pub form_head : Text
form_head = lit "\n<form method=\"post\" action=\"/authorize\">\n"

-- A hidden field of the form, with its value escaped.
abbrev pub hidden : Dict Text → String → Text
hidden params name =
    lit " <input type=\"hidden\" name=\""
    ++ (lit name ++ (lit "\" value=\"" ++ (escape (get_text params (lit name)) ++ lit "\">\n")))

abbrev pub page_end : Text
page_end =
    lit
      " <label>ISE username</label><input type=\"text\" name=\"username\" autocomplete=\"username\" required>\n"
    ++ (lit
          " <label>ISE password</label><input type=\"password\" name=\"password\" autocomplete=\"current-password\" required>\n"
        ++ (lit " <button type=\"submit\">Sign in</button>\n"
            ++ (lit "</form></div></body></html>")))

abbrev pub error_paragraph : Text → Text
error_paragraph [] = []
error_paragraph (c ∷ s) = lit "<p class=\"err\">" ++ (escape (c ∷ s) ++ lit "</p>")

-- `login_page(params, error)`
unfoldable pub login_page : Dict Text → Text → Text
unfolding escape
login_page params error =
    page_head
    ++ (page_style
        ++ (page_card
            ++ (error_paragraph error
                ++ (form_head
                    ++ (hidden params "client_id"
                        ++ (hidden params "redirect_uri"
                            ++ (hidden params "scope"
                                ++ (hidden params "state"
                                    ++ (hidden params "code_challenge" ++ page_end)))))))))
