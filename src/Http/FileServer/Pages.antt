-- ===== src/Http/FileServer/Pages.antt =====
-- The pages that `setResponseBody` of http/FileServer.cc sends.
use my_file_server.Common.{[], ◌∷◌, ◌++◌, Bytes, joined_lines}

pub welcome_page : Bytes
welcome_page = joined_lines (
    "<!DOCTYPE html>" ∷ "<html>" ∷ "    <head>" ∷ "        <meta charset=\"UTF-8\">"
    ∷ "        <title>WebServer</title>" ∷ "    </head>" ∷ "    <body>" ∷ "    <br/>" ∷ "    <br/>"
    ∷ "    <div align=\"center\"><font size=\"5\"> <strong>欢迎访问</strong></font></div>" ∷ "\t<br/>"
    ∷ "\t\t<br/>" ∷ "\t\t<form action=\"0\" method=\"post\">"
    ∷ " \t\t\t<div align=\"center\"><button type=\"submit\">新用户</button></div>"
    ∷ "                </form>" ∷ "\t\t<br/>"
    ∷ "                <form action=\"1\" method=\"post\">"
    ∷ "                        <div align=\"center\"><button type=\"submit\" >已有账号</button></div>"
    ∷ "                </form>" ∷ "\t\t" ∷ "\t\t" ∷ "        </div>" ∷ "    </body>" ∷ "</html>"
    ∷ [])

pub sign_up_page : Bytes
sign_up_page = joined_lines (
    "<!DOCTYPE html>" ∷ "<html>" ∷ "    <head>" ∷ "        <meta charset=\"UTF-8\">"
    ∷ "        <title>Sign up</title>" ∷ "    </head>" ∷ "    <body>" ∷ "<br/>" ∷ "<br/>"
    ∷ "    <div align=\"center\"><font size=\"5\"> <strong>注册</strong></font></div>" ∷ "    <br/>"
    ∷ "        <div class=\"login\">"
    ∷ "                <form action=\"3CGISQL.cgi\" method=\"post\">"
    ∷ "                        <div align=\"center\"><input type=\"text\" name=\"user\" placeholder=\"用户名\" required=\"required\"></div><br/>"
    ∷ "                        <div align=\"center\"><input type=\"password\" name=\"password\" placeholder=\"用户密码\" required=\"required\"></div><br/>"
    ∷ "                        <div align=\"center\"><button type=\"submit\">注册</button></div>"
    ∷ "                </form>" ∷ "        </div>" ∷ "    </body>" ∷ "</html>" ∷ [])

pub sign_in_page : Bytes
sign_in_page = joined_lines (
    "<!DOCTYPE html>" ∷ "<html>" ∷ "    <head>" ∷ "        <meta charset=\"UTF-8\">"
    ∷ "        <title>Sign in</title>" ∷ "    </head>" ∷ "    <body>" ∷ "<br/>" ∷ "<br/>"
    ∷ "    <div align=\"center\"><font size=\"5\"> <strong>登录</strong></font></div>" ∷ "    <br/>"
    ∷ "        <div class=\"login\">"
    ∷ "                <form action=\"2CGISQL.cgi\" method=\"post\">"
    ∷ "                        <div align=\"center\"><input type=\"text\" name=\"user\" placeholder=\"用户名\" required=\"required\"></div><br/>"
    ∷ "                        <div align=\"center\"><input type=\"password\" name=\"password\" placeholder=\"登录密码\" required=\"required\"></div><br/>"
    ∷ "                        <div align=\"center\"><button type=\"submit\">确定</button></div>"
    ∷ "                </form>" ∷ "        </div>" ∷ "    </body>" ∷ "</html>" ∷ [])

pub name_taken_page : Bytes
name_taken_page = joined_lines (
    "<!DOCTYPE html>" ∷ "<html>" ∷ "    <head>" ∷ "        <meta charset=\"UTF-8\">"
    ∷ "        <title>Sign up</title>" ∷ "    </head>" ∷ "    <body>" ∷ "<br/>" ∷ "<br/>"
    ∷ "    <div align=\"center\"><font size=\"5\"> <strong>注册</strong></font></div>" ∷ "    <br/>"
    ∷ "        <div class=\"login\">"
    ∷ "                <form action=\"3CGISQL.cgi\" method=\"post\">"
    ∷ "                        <div align=\"center\"><input type=\"text\" name=\"user\" placeholder=\"用户名\" required=\"required\"></div><br/>"
    ∷ "                        <div align=\"center\"><input type=\"password\" name=\"password\" placeholder=\"用户密码\" required=\"required\"></div><br/>"
    ∷ "                        <div align=\"center\"><button type=\"submit\">注册</button></div>"
    ∷ "                </form>" ∷ "\t\t<div  align=\"center\">提示：该用户名被注册.</div>" ∷ "        </div>"
    ∷ "    </body>" ∷ "</html>" ∷ [])

pub wrong_login_page : Bytes
wrong_login_page = joined_lines (
    "<!DOCTYPE html>" ∷ "<html>" ∷ "    <head>" ∷ "        <meta charset=\"UTF-8\">"
    ∷ "        <title>Sign in</title>" ∷ "    </head>" ∷ "    <body>" ∷ "<br/>" ∷ "<br/>"
    ∷ "    <div align=\"center\"><font size=\"5\"> <strong>登录</strong></font></div>" ∷ "    <br/>"
    ∷ "        <div class=\"login\">"
    ∷ "                <form action=\"2CGISQL.cgi\" method=\"post\">"
    ∷ "                        <div align=\"center\"><input type=\"text\" name=\"user\" placeholder=\"用户名\" required=\"required\"></div><br/>"
    ∷ "                        <div align=\"center\"><input type=\"password\" name=\"password\" placeholder=\"登录密码\" required=\"required\"></div><br/>"
    ∷ "                        <div align=\"center\"><button type=\"submit\">确定</button></div>"
    ∷ "                </form>" ∷ "\t\t<br/>"
    ∷ "               <div  align=\"center\">提示：用户名或密码错误，请重试</div>" ∷ "        </div>"
    ∷ "    </body>" ∷ "</html>" ∷ [])

pub uploaded_page : Bytes
uploaded_page = joined_lines (
    "<!DOCTYPE html>" ∷ "<html>" ∷ "    <head>" ∷ "        <meta charset=\"UTF-8\">"
    ∷ "        <title>WebServer</title>" ∷ "    </head>" ∷ "    <body>" ∷ "    <br/>" ∷ "    <br/>"
    ∷ "    <div align=\"center\"><font size=\"5\"> <strong>上传成功</strong></font></div>" ∷ "\t<br/>"
    ∷ "\t\t<br/>" ∷ "\t\t" ∷ "        </div>" ∷ "    </body>" ∷ "</html>" ∷ [])

pub deleted_page : Bytes
deleted_page = joined_lines (
    "<!DOCTYPE html>" ∷ "<html>" ∷ "    <head>" ∷ "        <meta charset=\"UTF-8\">"
    ∷ "        <title>WebServer</title>" ∷ "    </head>" ∷ "    <body>" ∷ "    <br/>" ∷ "    <br/>"
    ∷ "    <div align=\"center\"><font size=\"5\"> <strong>删除成功</strong></font></div>" ∷ "\t<br/>"
    ∷ "\t\t<br/>" ∷ "\t\t" ∷ "        </div>" ∷ "    </body>" ∷ "</html>" ∷ [])

-- `get404Html`
pub get_404_html : Bytes → Bytes
get_404_html msg =
    joined_lines (
      "<!DOCTYPE HTML PUBLIC \"-//W3C//DTD HTML 4.01//EN\" \"http://www.w3.org/TR/html4/strict.dtd\">"
      ∷ "<html>" ∷ "    <head>"
      ∷ "        <meta http-equiv=\"Content-Type\" content=\"text/html;charset=utf-8\">"
      ∷ "        <title>Error response</title>" ∷ "    </head>" ∷ "    <body>"
      ∷ "        <h1>Error response</h1>" ∷ "        <p>Error code: 404</p>" ∷ "        <p>Message:"
      ∷ [])
    ++ (msg
        ++ joined_lines (
            "</p>"
            ∷ "        <p>Error code explanation: HTTPStatus.NOT_FOUND - Nothing matches the given URI.</p>"
            ∷ "    </body>" ∷ "</html>" ∷ "" ∷ []))
